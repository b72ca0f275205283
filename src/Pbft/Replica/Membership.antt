-- ===== src/Pbft/Replica/Membership.antt =====
-- Moving to a new configuration, in pbft/pbft.cpp.
use swarm_db.Base.{
  ◌≡◌, refl, ◌∙◌, true, String, arith, if◌then◌else◌, is_some, Bool-cases, inl, inr,
}
use swarm_db.Pbft.ConfigStore.{ConfigStore, set_current, get, is_enabled, current}
use swarm_db.Pbft.ConfigStore.Laws.{IsValid, set_current_lem, remove_prior_to_lem}
use swarm_db.Pbft.Replica.State.{Replica}
use swarm_db.Pbft.Replica.Requests.{move_to_new_configuration}

is_enabled-get :
    (hash : String) (s : ConfigStore) → is_enabled hash s ≡ true → is_some (get hash s) ≡ true
unfolding is_enabled get
is_enabled-get hash s h = ground arith

-- A replica moves exactly to a configuration that is enabled, which is then the current one; otherwise the
-- current one stays. The store stays well formed.
pub move_to_new_configuration_lem :
    (hash : String) (s : Replica)
    → IsValid s.configurations
    → ((move_to_new_configuration hash s).0 ≡ is_enabled hash s.configurations)
      × IsValid (move_to_new_configuration hash s).1.configurations
      × (current (move_to_new_configuration hash s).1.configurations ≡ (
          if is_enabled hash s.configurations
          then get hash s.configurations
          else current s.configurations))
unfolding move_to_new_configuration
move_to_new_configuration_lem hash s v =
    let c = set_current_lem hash s.configurations v in
    let r = remove_prior_to_lem hash (set_current hash s.configurations).1 c.1 in
    elim (Bool-cases (is_enabled hash s.configurations)) [
      | inl e ↦
          rw (e, move_to_new_configuration)
            (refl, r.1, r.2 ∙ c.2 ∙ rw (is_enabled-get hash s.configurations e) refl)
      | inr e ↦ rw (e, move_to_new_configuration) (refl, v, refl)
    ]
