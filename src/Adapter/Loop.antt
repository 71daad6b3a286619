-- ===== src/Adapter/Loop.antt =====
-- The event loop that runs the models of pam/internal/adapter: bubbletea's, with the filter of the
-- messages. A nested tea.Sequence does not order what stands around it, so commands run in any order.
pub mod Fine
pub mod Forms
pub mod Clients
pub mod NativeClient
pub mod NativeUpdate
pub mod Results
pub mod Stages
pub mod Handlers
pub mod Updates
pub mod Granted
pub mod Success
pub mod Scheduler
mod Examples
use authd.Prelude.{
  ◌≡◌, String, Bool, true, false, ◌||◌, Option, none, some, List, [], ◌∷◌, ◌++◌, ◌==◌, string_eq,
}
use authd.Adapter.Messages.{
  Msg, key, other, Cmd, nil, send, call, sequence, batch, Call, send_is_authenticated,
}
use authd.Adapter.Commands.{Server, Access, accessed, run_call}
use authd.Adapter.Model.{UiModel, Outside, msg_filter}
use authd.Adapter.Model.Update.{update}

-- The model, the commands that have not run, and whether authd has answered "granted" to a request.
pub record Loop : Type 0 where
  pub ui : UiModel
  pub pending : List Cmd
  pub granted : Bool

-- What comes from the terminal: a key, or an event of the widgets.
pub data External : Msg → Type 0 where
  pressed : (name : String) → External (key name)
  widget : External other

abbrev pub is_granted : Access → Bool
is_granted (accessed access msg) = access == "granted"
is_granted _ = false

-- whether a closure gets the answer "granted"
abbrev pub gets_granted : Server → Call → Bool
gets_granted s (send_is_authenticated id item secret) = is_granted (s.is_authenticated id item)
gets_granted s _ = false

-- A message is filtered, and the model handles it.
abbrev pub Handles : Outside → Msg → UiModel → UiModel → Cmd → Type 0
Handles o msg m m' cmd = update o msg (msg_filter msg m) ≡ some (m', cmd)

pub data Step : Loop → Loop → Type 0 where
  external :
      (s : Loop) (o : Outside) (msg : Msg) (m : UiModel) (cmd : Cmd)
      → External msg
      → Handles o msg s.ui m cmd
      → Step s (record s { ui = m; pending = s.pending ++ cmd ∷ [] })
  sends :
      (s : Loop) (o : Outside) (msg : Msg) (m : UiModel) (cmd : Cmd) (before after : List Cmd)
      → s.pending ≡ before ++ send msg ∷ after
      → Handles o msg s.ui m cmd
      → Step s (record s { ui = m; pending = (before ++ after) ++ cmd ∷ [] })
  calls :
      (s : Loop) (server : Server) (c : Call) (msg : Msg) (before after : List Cmd)
      → s.pending ≡ before ++ call c ∷ after
      → run_call server c ≡ some msg
      → Step s (record s {
        pending = before ++ send msg ∷ after;
        granted = s.granted || gets_granted server c;
      })
  returns_nil :
      (s : Loop) (server : Server) (c : Call) (before after : List Cmd)
      → s.pending ≡ before ++ call c ∷ after
      → run_call server c ≡ none
      → Step s (record s { pending = before ++ after })
  drops_nil :
      (s : Loop) (before after : List Cmd)
      → s.pending ≡ before ++ nil ∷ after
      → Step s (record s { pending = before ++ after })
  splits_sequence :
      (s : Loop) (a b : Cmd) (before after : List Cmd)
      → s.pending ≡ before ++ sequence a b ∷ after
      → Step s (record s { pending = before ++ a ∷ b ∷ after })
  splits_batch :
      (s : Loop) (a b : Cmd) (before after : List Cmd)
      → s.pending ≡ before ++ batch a b ∷ after
      → Step s (record s { pending = before ++ a ∷ b ∷ after })

pub data Reach (start : Loop) : Loop → Type 0 where
  here : Reach start start
  next : {s t : Loop} → Reach start s → Step s t → Reach start t
