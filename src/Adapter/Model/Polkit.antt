-- ===== src/Adapter/Model/Polkit.antt =====
-- The slice of brokers that the broker selection and the client of plain conversations share, where the
-- PAM service is polkit.
use authd.Prelude.{
  eq_iff, ap, ◌≡◌, refl, ◌∙◌, true, Option, none, some, Option-cases, List, [], ◌∷◌, ◌++◌, map, any,
  arith, string_eq, inl, inr,
}
use mathlib.Core.List.{append_assoc}
use authd.Brokers.Broker.{local_broker_name}
use authd.Adapter.Messages.{Choice, Cmd, native, brokers_list_received, broker_selected}
use authd.Adapter.Authentication.{update_authentication}
use authd.Adapter.BrokerSelection.{find_broker, broker_from_id, update_broker_selection}
use authd.Adapter.Native.{polkit_service_name}
use authd.Adapter.Native.Update.{update_native, handle_native}
use authd.Adapter.Model.{
  UiModel, Outside, delete_in_place, is_local, share_brokers, update_client_model,
}
use authd.Adapter.Model.Update.{update, update_all}

-- Past the brokers that stay, a cleared pointer stops the search for the local broker.
find_broker-cleared :
    (bs : List Choice) (after : List (Option Choice))
    → find_broker local_broker_name (delete_in_place is_local (map some bs) ++ none ∷ after) ≡ none
unfolding find_broker delete_in_place
find_broker-cleared [] after = refl
find_broker-cleared (b ∷ bs) after = ground (
  arith,
  find_broker-cleared bs after,
  find_broker-cleared bs (none ∷ after),
  append_assoc (delete_in_place is_local (map some bs)) (none ∷ []) (none ∷ after),
)

find_broker-local :
    (bs : List Choice)
    → any is_local bs ≡ true
    → find_broker local_broker_name (delete_in_place is_local (map some bs)) ≡ none
unfolding find_broker delete_in_place
find_broker-local [] h = cc
find_broker-local (b ∷ bs) h = ground (arith, find_broker-cleared bs [], find_broker-local bs)

shared_brokers :
    (o : Outside) (m m' : UiModel) (b : Choice) (bs : List Choice) (cmd : Cmd)
    → m.client_type ≡ native
    → m.native_model.service_name ≡ polkit_service_name
    → update_all o (brokers_list_received (b ∷ bs)) m ≡ some (m', cmd)
    → m'.broker_selection_model.available_brokers ≡ delete_in_place is_local (map some (b ∷ bs))
unfolding update_all update_broker_selection update_client_model update_native handle_native
    share_brokers
shared_brokers o m m' b bs cmd t p h =
    elim (Option-cases
      (update_authentication o.env (brokers_list_received (b ∷ bs)) m.authentication_model)) [
        | inl e ↦ ground arith
        | inr (a, e) ↦ ground (arith, eq_iff m.native_model.service_name polkit_service_name)
      ]

select_local :
    (o : Outside) (m : UiModel)
    → find_broker local_broker_name m.broker_selection_model.available_brokers ≡ none
    → update o (broker_selected local_broker_name) m ≡ none
unfolding update update_all update_broker_selection broker_from_id
select_local o m h = ground arith

-- Where the PAM service is polkit and the client is the native one: once a list of brokers that has the
-- local broker was received, the selection of the local broker, which is what the automatic selection
-- gives for a user of the system, panics.
pub local_broker_panics :
    (o o' : Outside) (m m' : UiModel) (b : Choice) (bs : List Choice) (cmd : Cmd)
    → m.client_type ≡ native
    → m.native_model.service_name ≡ polkit_service_name
    → any is_local (b ∷ bs) ≡ true
    → update o (brokers_list_received (b ∷ bs)) m ≡ some (m', cmd)
    → update o' (broker_selected local_broker_name) m' ≡ none
unfolding update
local_broker_panics o o' m m' b bs cmd t p l h = select_local o' m' (
    ap (find_broker local_broker_name) (shared_brokers o m m' b bs cmd t p h)
    ∙ find_broker-local (b ∷ bs) l)
