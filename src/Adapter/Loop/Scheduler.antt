-- ===== src/Adapter/Loop/Scheduler.antt =====
-- One order in which the event loop can run: the oldest command first. It makes runs of the loop out of
-- what is outside.
use authd.Prelude.{
  ap, ◌∙◌, ℕ, zero, suc, ◌≡◌, refl, ◌||◌, Option, none, some, Option-cases, List, [], ◌∷◌, ◌++◌,
  arith, inl, inr, subst, sym, some-eq,
}
use authd.Adapter.Messages.{Msg, Cmd, nil, send, call, sequence, batch, Call}
use authd.Adapter.Commands.{Server, run_call}
use authd.Adapter.Model.{UiModel, Outside, msg_filter}
use authd.Adapter.Model.Update.{update}
use authd.Adapter.Loop.{
  Loop, gets_granted, Step, sends, calls, returns_nil, drops_nil, splits_sequence, splits_batch,
  Reach, here, next,
}

abbrev sent : Loop → List Cmd → Option (UiModel × Cmd) → Option Loop
sent s rest none = none
sent s rest (some (m, cmd)) = some (record s { ui = m; pending = rest ++ cmd ∷ [] })

abbrev called : Loop → Server → Call → List Cmd → Option Msg → Loop
called s server c rest none = record s { pending = rest }
called s server c rest (some msg) = record s {
  pending = send msg ∷ rest;
  granted = s.granted || gets_granted server c;
}

-- the oldest command; none where there is none, or where the model panics or waits
unfoldable pub run_oldest : Server → Outside → List Cmd → Loop → Option Loop
run_oldest server o [] s = none
run_oldest server o (nil ∷ rest) s = some (record s { pending = rest })
run_oldest server o (send msg ∷ rest) s = sent s rest (update o msg (msg_filter msg s.ui))
run_oldest server o (call c ∷ rest) s = some (called s server c rest (run_call server c))
run_oldest server o (sequence a b ∷ rest) s = some (record s { pending = a ∷ b ∷ rest })
run_oldest server o (batch a b ∷ rest) s = some (record s { pending = a ∷ b ∷ rest })

run_oldest-Step :
    (server : Server) (o : Outside) (pending : List Cmd) (s t : Loop)
    → s.pending ≡ pending
    → run_oldest server o pending s ≡ some t
    → Step s t
unfolding run_oldest
run_oldest-Step server o [] s t e h = cc
run_oldest-Step server o (nil ∷ rest) s t e h =
    subst (Step s) (some-eq _ _ h) (drops_nil s [] rest e)
run_oldest-Step server o (send msg ∷ rest) s t e h =
    elim (Option-cases (update o msg (msg_filter msg s.ui))) [
      | inl p ↦ ground arith
      | inr ((m, cmd), p) ↦
          subst (Step s) (some-eq _ _ (ap (sent s rest) (sym p) ∙ h))
            (sends s o msg m cmd [] rest e p)
    ]
run_oldest-Step server o (call c ∷ rest) s t e h = elim (Option-cases (run_call server c)) [
  | inl p ↦
      subst (Step s) (ap (called s server c rest) (sym p) ∙ some-eq _ _ h)
        (returns_nil s server c [] rest e p)
  | inr (msg, p) ↦
      subst (Step s) (ap (called s server c rest) (sym p) ∙ some-eq _ _ h)
        (calls s server c msg [] rest e p)
]
run_oldest-Step server o (sequence a b ∷ rest) s t e h =
    subst (Step s) (some-eq _ _ h) (splits_sequence s a b [] rest e)
run_oldest-Step server o (batch a b ∷ rest) s t e h =
    subst (Step s) (some-eq _ _ h) (splits_batch s a b [] rest e)

-- at most so many commands
unfoldable pub run : ℕ → Server → Outside → Loop → Loop
run zero server o s = s
run (suc n) server o s = elim (run_oldest server o s.pending s) [
  | none ↦ s
  | some t ↦ run n server o t
]

prepend : {s t u : Loop} → Step s t → Reach t u → Reach s u
prepend st here = next here st
prepend st (next r x) = next (prepend st r) x

pub run-Reach : (n : ℕ) (server : Server) (o : Outside) (s : Loop) → Reach s (run n server o s)
unfolding run
run-Reach zero server o s = here
run-Reach (suc n) server o s = elim (Option-cases (run_oldest server o s.pending s)) [
  | inl e ↦ rw (e, run) here
  | inr (t, e) ↦
      rw (e, run) (prepend (run_oldest-Step server o s.pending s t refl e) (run-Reach n server o t))
]
