-- ===== src/Adapter/Loop/Granted.antt =====
-- The event loop of pam/internal/adapter: what every run of it keeps to.
use authd.Prelude.{
  ◌≡◌, String, Bool, true, false, ◌||◌, Option, some, List, [], ◌∷◌, ◌++◌, arith, string_eq, subst,
}
use authd.Adapter.Messages.{
  health_check, ClientType, pam_error, err_system, challenge_item, wait_item, skip_item, no_item,
  Msg, Cmd, nil, send, call, sequence, batch, Call, Item, pam_success,
  is_authenticated_result_received, start_broker_session, get_authentication_modes, get_layout,
  send_is_authenticated, wait_and_start,
}
use authd.Adapter.Commands.{
  Health, serving, not_serving, check_failed, check_cancelled, health_msg, Server, Access, accessed,
  request_cancelled, request_failed, run_call, is_authenticated_msg, start_session,
  previous_broker_msg, modes_msg, layout_msg, quality_msg, started_msg, capabilities_msg,
}
use authd.Adapter.Model.{UiModel, exit_success, Outside, msg_filter}
use authd.Adapter.Loop.{
  Loop, External, pressed, widget, is_granted, gets_granted, Handles, Step, external, sends, calls,
  returns_nil, drops_nil, splits_sequence, splits_batch, Reach, here, next,
}
use authd.Adapter.Loop.Fine.{FineMsg, IsFine}
use authd.Adapter.Loop.Stages.{msg_filter-exit_status}
use authd.Adapter.Loop.Updates.{asked_status, update-IsFine}

abbrev access_msg : Access → Option String → Msg
access_msg (accessed access msg) secret = is_authenticated_result_received access secret msg
access_msg request_cancelled secret = is_authenticated_result_received "cancelled" secret ""
access_msg request_failed secret = pam_error err_system "authentication status failure"

is_authenticated-FineMsg :
    (g : Bool) (a : Access) (secret : Option String)
    → FineMsg (g || is_granted a) (access_msg a secret)
is_authenticated-FineMsg true a secret = ground arith
is_authenticated-FineMsg false (accessed access msg) secret = λ e. e
is_authenticated-FineMsg false request_cancelled secret = λ e. cc
is_authenticated-FineMsg false request_failed secret = tt

started-FineMsg :
    (g : Bool) (client : ClientType) (layout : String) (item : Item)
    → FineMsg g (started_msg client layout item)
unfolding started_msg
started-FineMsg g client layout (challenge_item secret) = ground arith
started-FineMsg g client layout (wait_item text) = tt
started-FineMsg g client layout (skip_item text) = tt
started-FineMsg g client layout no_item = tt

health_msg-FineMsg :
    (g : Bool) (answers : List Health) (msg : Msg) → health_msg answers ≡ some msg → FineMsg g msg
unfolding health_msg
health_msg-FineMsg g [] msg h = ground arith
health_msg-FineMsg g (serving ∷ answers) msg h = health_msg-FineMsg g answers msg h
health_msg-FineMsg g (not_serving ∷ answers) msg h = ground arith
health_msg-FineMsg g (check_failed ∷ answers) msg h = ground arith
health_msg-FineMsg g (check_cancelled ∷ answers) msg h = ground arith

-- what a closure gives is a granted result only where it gets the answer
run_call-FineMsg :
    (g : Bool) (s : Server) (c : Call) (msg : Msg)
    → run_call s c ≡ some msg
    → FineMsg (g || gets_granted s c) msg
unfolding run_call is_authenticated_msg start_session previous_broker_msg modes_msg layout_msg
    quality_msg capabilities_msg
run_call-FineMsg g s (send_is_authenticated id item secret) msg h =
    ground (arith, is_authenticated-FineMsg g (s.is_authenticated id item) secret)
run_call-FineMsg g s (wait_and_start client layout item) msg h =
    ground (arith, started-FineMsg (g || false) client layout item)
run_call-FineMsg g s health_check msg h = health_msg-FineMsg (g || false) s.health msg h
run_call-FineMsg g s (start_broker_session id name mode) msg h = ground arith
run_call-FineMsg g s (get_authentication_modes id layouts) msg h = ground arith
run_call-FineMsg g s (get_layout id mode) msg h = ground arith
run_call-FineMsg g s c msg h = ground arith

FineMsg-mono : (g b : Bool) (msg : Msg) → FineMsg g msg → FineMsg (g || b) msg
FineMsg-mono true b msg h = h
FineMsg-mono false b (pam_success broker_id text) h = cc
FineMsg-mono false b (is_authenticated_result_received access secret text) h = λ e. cc (h e)
FineMsg-mono false b msg h = ground arith

IsFine-mono : (g b : Bool) (cmd : Cmd) → IsFine g cmd → IsFine (g || b) cmd
IsFine-mono g b nil h = tt
IsFine-mono g b (send msg) h = FineMsg-mono g b msg h
IsFine-mono g b (call c) h = tt
IsFine-mono g b (sequence x y) h = (IsFine-mono g b x h.0, IsFine-mono g b y h.1)
IsFine-mono g b (batch x y) h = (IsFine-mono g b x h.0, IsFine-mono g b y h.1)

abbrev pub AllFine : Bool → List Cmd → Type 0
AllFine g [] = Unit
AllFine g (c ∷ cs) = IsFine g c × AllFine g cs

AllFine-append : (g : Bool) (xs ys : List Cmd) → AllFine g xs → AllFine g ys → AllFine g (xs ++ ys)
AllFine-append g [] ys hx hy = hy
AllFine-append g (x ∷ xs) ys hx hy = (hx.0, AllFine-append g xs ys hx.1 hy)

AllFine-append_left : (g : Bool) (xs ys : List Cmd) → AllFine g (xs ++ ys) → AllFine g xs
AllFine-append_left g [] ys h = tt
AllFine-append_left g (x ∷ xs) ys h = (h.0, AllFine-append_left g xs ys h.1)

AllFine-append_right : (g : Bool) (xs ys : List Cmd) → AllFine g (xs ++ ys) → AllFine g ys
AllFine-append_right g [] ys h = h
AllFine-append_right g (x ∷ xs) ys h = AllFine-append_right g xs ys h.1

AllFine-mono : (g b : Bool) (xs : List Cmd) → AllFine g xs → AllFine (g || b) xs
AllFine-mono g b [] h = tt
AllFine-mono g b (x ∷ xs) h = (IsFine-mono g b x h.0, AllFine-mono g b xs h.1)

-- a pending command taken out: it and the others are fine
AllFine-taken :
    (g : Bool) (pending before after : List Cmd) (c : Cmd)
    → pending ≡ before ++ c ∷ after
    → AllFine g pending
    → AllFine g before × IsFine g c × AllFine g after
AllFine-taken g pending before after c e h =
    let all = subst (AllFine g) e h in
    let rest = AllFine-append_right g before (c ∷ after) all in
    (AllFine-append_left g before (c ∷ after) all, rest.0, rest.1)

-- Only where authd has granted is a success pending, or is it the status that the loop exits with.
pub record IsHonest (s : Loop) : Type 0 where
  pub fine : AllFine s.granted s.pending
  pub exits :
      (broker_id text : String)
      → s.ui.exit_status ≡ some (exit_success broker_id text)
      → s.granted ≡ true

asked-granted :
    (g : Bool) (msg : Msg) (broker_id text : String)
    → FineMsg g msg
    → asked_status msg ≡ some (exit_success broker_id text)
    → g ≡ true
asked-granted g (pam_success broker text') broker_id text f h = f
asked-granted g msg broker_id text f h = cc

-- a message that the loop hands to the model
Handles-IsHonest :
    (s : Loop) (o : Outside) (msg : Msg) (m : UiModel) (cmd : Cmd) (pending : List Cmd)
    → FineMsg s.granted msg
    → AllFine s.granted pending
    → IsHonest s
    → Handles o msg s.ui m cmd
    → IsHonest (record s { ui = m; pending = pending ++ cmd ∷ [] })
Handles-IsHonest s o msg m cmd pending f p w h =
    let (fine, status) = update-IsFine s.granted o msg (msg_filter msg s.ui) m cmd f h in
    record {
      fine = AllFine-append s.granted pending (cmd ∷ []) p (fine, tt);
      exits = λ b t e.
          ground (
            arith,
            w.exits b t,
            asked-granted s.granted msg b t f,
            msg_filter-exit_status msg s.ui,
          );
    }

External-FineMsg : (g : Bool) (msg : Msg) → External msg → FineMsg g msg
External-FineMsg g _ (pressed name) = tt
External-FineMsg g _ widget = tt

-- one pending command, and what comes after it, replaced by what is as fine
replaces-IsHonest :
    (s : Loop) (before after rest : List Cmd) (c : Cmd)
    → s.pending ≡ before ++ c ∷ after
    → (IsFine s.granted c → AllFine s.granted after → AllFine s.granted rest)
    → IsHonest s
    → IsHonest (record s { pending = before ++ rest })
replaces-IsHonest s before after rest c e f w =
    let (b, i, a) = AllFine-taken s.granted s.pending before after c e w.fine in
    record { fine = AllFine-append s.granted before rest b (f i a); exits = w.exits }

Step-IsHonest : {s t : Loop} → Step s t → IsHonest s → IsHonest t
Step-IsHonest (external s o msg m cmd x h) w =
    Handles-IsHonest s o msg m cmd s.pending (External-FineMsg s.granted msg x) w.fine w h
Step-IsHonest (sends s o msg m cmd before after e h) w =
    let (b, f, a) = AllFine-taken s.granted s.pending before after (send msg) e w.fine in
    Handles-IsHonest s o msg m cmd (before ++ after) f (AllFine-append s.granted before after b a) w
      h
Step-IsHonest (calls s server c msg before after e h) w =
    let (b, f, a) = AllFine-taken s.granted s.pending before after (call c) e w.fine in
    let g = gets_granted server c in
    record {
      fine =
          AllFine-append (s.granted || g) before (send msg ∷ after)
            (AllFine-mono s.granted g before b)
            (run_call-FineMsg s.granted server c msg h, AllFine-mono s.granted g after a);
      exits = λ broker_id text p. ground (arith, w.exits broker_id text);
    }
Step-IsHonest (returns_nil s server c before after e h) w =
    replaces-IsHonest s before after after (call c) e (λ i a. a) w
Step-IsHonest (drops_nil s before after e) w =
    replaces-IsHonest s before after after nil e (λ i a. a) w
Step-IsHonest (splits_sequence s x y before after e) w =
    replaces-IsHonest s before after (x ∷ y ∷ after) (sequence x y) e (λ i a. (i.0, (i.1, a))) w
Step-IsHonest (splits_batch s x y before after e) w =
    replaces-IsHonest s before after (x ∷ y ∷ after) (batch x y) e (λ i a. (i.0, (i.1, a))) w

pub Reach-IsHonest : {s t : Loop} → Reach s t → IsHonest s → IsHonest t
Reach-IsHonest here w = w
Reach-IsHonest (next r st) w = Step-IsHonest st (Reach-IsHonest r w)
