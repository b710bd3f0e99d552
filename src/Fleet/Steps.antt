-- ===== src/Fleet/Steps.antt =====
-- The cached lists stay right under all that changes the executors or their states.
use mathlib.Core.Option.{none-ne-some}
use smallpond.Prelude.{
  ℕ, ◌≡◌, refl, sym, ap, ◌∙◌, Bool, false, inl, inr, List, [], ◌∷◌, ◌++◌, arith, Bool-cases, ◌==◌,
}
use smallpond.Queue.{WorkQueue}
use smallpond.Remote.{RemoteExecutor, update_state, reset_state}
use smallpond.Fleet.{
  ListName, remote_executors, local_executors, working_executors, alive_executors, good_executors,
  failed_executors, stopped_executors, stopping_executors, low_resource_executors, Member, Fleet,
  remote_ids, local_ids, is_selected, keep_ids, read, clear_cached_executor_lists, discover,
  change_member, change_all, suspend_good_executors, update_member, update_each, update_lists,
  has_member, new_member,
}
use smallpond.Fleet.Turns.{
  Turn, reads, discovers, updates, suspends, probes, runs, first_fleet, Reach, here, later,
}
use smallpond.Fleet.Coherent.{listed, IsCoherent, read-Reads}
use smallpond.Fleet.Clear.{clear-IsCoherent, read-IsCoherent}

keep_ids-ext :
    (p q : ℕ → Bool) → ((id : ℕ) → p id ≡ q id) → (ids : List ℕ) → keep_ids p ids ≡ keep_ids q ids
keep_ids-ext p q e [] = refl
keep_ids-ext p q e (id ∷ ids) = rw (e id, keep_ids-ext p q e ids) refl

module _ {Q : Type 0} where
  -- Executors that the lists cannot tell apart.
  data Alike : List (Member Q) → List (Member Q) → Type 0 where
    none_left : Alike [] []
    both :
        {m m' : Member Q} {ms ms' : List (Member Q)}
        → m'.executor.id ≡ m.executor.id
        → m'.local ≡ m.local
        → m'.executor.state ≡ m.executor.state
        → Alike ms ms'
        → Alike (m ∷ ms) (m' ∷ ms')

  Alike-refl : (ms : List (Member Q)) → Alike ms ms
  Alike-refl [] = none_left
  Alike-refl (m ∷ ms) = both refl refl refl (Alike-refl ms)

  Alike-trans : {ls ms ns : List (Member Q)} → Alike ls ms → Alike ms ns → Alike ls ns
  Alike-trans none_left none_left = none_left
  Alike-trans (both i l s a) (both i' l' s' a') = both (i' ∙ i) (l' ∙ l) (s' ∙ s) (Alike-trans a a')

  Alike-is_selected :
      (name : ListName) {ms ms' : List (Member Q)}
      → Alike ms ms'
      → (id : ℕ) → is_selected name ms' id ≡ is_selected name ms id
  Alike-is_selected name none_left id = refl
  Alike-is_selected name (both i l s a) id = rw (i, s, Alike-is_selected name a id) refl

  Alike-remote_ids : {ms ms' : List (Member Q)} → Alike ms ms' → remote_ids ms' ≡ remote_ids ms
  Alike-remote_ids none_left = refl
  Alike-remote_ids (both i l s a) = rw (i, l, Alike-remote_ids a) refl

  Alike-local_ids : {ms ms' : List (Member Q)} → Alike ms ms' → local_ids ms' ≡ local_ids ms
  Alike-local_ids none_left = refl
  Alike-local_ids (both i l s a) = rw (i, l, Alike-local_ids a) refl

  Alike-kept :
      (name : ListName) {ms ms' : List (Member Q)}
      → Alike ms ms'
      → keep_ids (is_selected name ms') (remote_ids ms')
        ≡ keep_ids (is_selected name ms) (remote_ids ms)
  Alike-kept name {ms} {ms'} a =
      keep_ids-ext (is_selected name ms') (is_selected name ms) (Alike-is_selected name a)
        (remote_ids ms')
      ∙ ap (keep_ids (is_selected name ms)) (Alike-remote_ids a)

  Alike-listed :
      (name : ListName) {ms ms' : List (Member Q)} → Alike ms ms' → listed name ms' ≡ listed name ms
  Alike-listed remote_executors a = Alike-remote_ids a
  Alike-listed local_executors a = Alike-local_ids a
  Alike-listed working_executors a = Alike-kept working_executors a
  Alike-listed alive_executors a = Alike-kept alive_executors a
  Alike-listed good_executors a = Alike-kept good_executors a
  Alike-listed failed_executors a = Alike-kept failed_executors a
  Alike-listed stopped_executors a = Alike-kept stopped_executors a
  Alike-listed stopping_executors a = Alike-kept stopping_executors a
  Alike-listed low_resource_executors a = Alike-kept low_resource_executors a

  Alike-IsCoherent :
      (f : Fleet Q) (ms : List (Member Q))
      → Alike f.available ms
      → IsCoherent f
      → IsCoherent (record f { available = ms })
  Alike-IsCoherent f ms a h n ids e = h n ids e ∙ sym (Alike-listed n a)

  change_member-Alike :
      (id : ℕ) (g : RemoteExecutor Q → RemoteExecutor Q)
      → ((e : RemoteExecutor Q) → ((g e).id ≡ e.id) × ((g e).state ≡ e.state))
      → (ms : List (Member Q)) → Alike ms (change_member id g ms)
  change_member-Alike id g keeps [] = none_left
  change_member-Alike id g keeps (m ∷ ms) = elim (Bool-cases (m.executor.id == id)) [
    | inl e ↦ rw e (both (keeps m.executor).0 refl (keeps m.executor).1 (Alike-refl ms))
    | inr e ↦ rw e (both refl refl refl (change_member-Alike id g keeps ms))
  ]

  update_state-kept :
      (max_missed epoch : ℕ) (e : RemoteExecutor Q)
      → (update_state max_missed epoch e).1 ≡ false
      → ((update_state max_missed epoch e).0.id ≡ e.id)
        × ((update_state max_missed epoch e).0.state ≡ e.state)
  unfolding update_state
  update_state-kept max_missed epoch e h = (ground arith, ground arith)

  update_member-Alike :
      (max_missed epoch id : ℕ) (ms : List (Member Q))
      → (update_member max_missed epoch id ms).1 ≡ false
      → Alike ms (update_member max_missed epoch id ms).0
  unfolding update_member
  update_member-Alike max_missed epoch id [] h = none_left
  update_member-Alike max_missed epoch id (m ∷ ms) h = elim (Bool-cases (m.executor.id == id)) [
    | inl e ↦
        let (same_id, same_state) = update_state-kept max_missed epoch m.executor (rw e at h) in
        rw e (both same_id refl same_state (Alike-refl ms))
    | inr e ↦ rw e (both refl refl refl (update_member-Alike max_missed epoch id ms (rw e at h)))
  ]

  update_each-Alike :
      (max_missed epoch : ℕ) (ids : List ℕ) (ms : List (Member Q))
      → (update_each max_missed epoch ids ms).1 ≡ false
      → Alike ms (update_each max_missed epoch ids ms).0
  unfolding update_each
  update_each-Alike max_missed epoch [] ms h = Alike-refl ms
  update_each-Alike max_missed epoch (id ∷ ids) ms h =
      Alike-trans (update_member-Alike max_missed epoch id ms (ground arith)) (
        update_each-Alike max_missed epoch ids (update_member max_missed epoch id ms).0
          (ground arith))

  update_lists-IsCoherent :
      (max_missed : ℕ) (f : Fleet Q) → IsCoherent f → IsCoherent (update_lists max_missed f)
  unfolding update_lists
  update_lists-IsCoherent max_missed f h =
      let (ids, f') = read alive_executors f in
      let (ms, changed) = update_each max_missed f.probe_epoch ids f'.available in
      elim (Bool-cases changed) [
        | inl some_changed ↦
            rw (some_changed, update_lists) (clear-IsCoherent (record f' { available = ms }))
        | inr kept ↦
            rw (kept, update_lists)
              (Alike-IsCoherent f' ms
                (update_each-Alike max_missed f.probe_epoch ids f'.available kept)
                (read-IsCoherent alive_executors f h))
      ]

  discover-IsCoherent :
      (dirs : List (ℕ × WorkQueue Q)) (f : Fleet Q) → IsCoherent f → IsCoherent (discover dirs f)
  unfolding discover
  discover-IsCoherent [] f h = h
  discover-IsCoherent ((id, wq) ∷ dirs) f h = elim (Bool-cases (has_member id f.available)) [
    | inl known ↦ rw (known, discover) (discover-IsCoherent dirs f h)
    | inr new ↦
        let found = record f { available = f.available ++ new_member f.probe_epoch id wq ∷ [] } in
        rw (new, discover)
          (discover-IsCoherent dirs (clear_cached_executor_lists found) (clear-IsCoherent found))
  ]

  suspend-IsCoherent : (f : Fleet Q) → IsCoherent (suspend_good_executors f)
  unfolding suspend_good_executors
  suspend-IsCoherent f =
      let (ids, f') = read good_executors f in
      clear-IsCoherent
        (record f' { available = change_all ids (reset_state f.probe_epoch) f'.available })

  Turn-IsCoherent : {f g : Fleet Q} → Turn f g → IsCoherent f → IsCoherent g
  Turn-IsCoherent (reads name f) h = read-IsCoherent name f h
  Turn-IsCoherent (discovers dirs f) h = discover-IsCoherent dirs f h
  Turn-IsCoherent (updates max_missed f) h = update_lists-IsCoherent max_missed f h
  Turn-IsCoherent (suspends f) h = suspend-IsCoherent f
  Turn-IsCoherent (probes f) h = h
  Turn-IsCoherent (runs id g f keeps) h =
      Alike-IsCoherent f (change_member id g f.available)
        (change_member-Alike id g keeps f.available) h

  Reach-IsCoherent : {f g : Fleet Q} → Reach f g → IsCoherent f → IsCoherent g
  Reach-IsCoherent here h = h
  Reach-IsCoherent (later r turn) h = Turn-IsCoherent turn (Reach-IsCoherent r h)

  -- Whatever happens in whatever order, a cached list of executors that is read is the list computed
  -- from the executors that are known and the states that they have then, in the order in which the
  -- executors were found; and reading it changes neither the executors nor what any list is.
  pub read-listed :
      (e : RemoteExecutor Q) (f : Fleet Q)
      → Reach (first_fleet e) f
      → (name : ListName)
      → ((read name f).0 ≡ listed name f.available)
        × ((read name f).1.available ≡ f.available)
        × IsCoherent (read name f).1
  read-listed e f reached name =
      let h = Reach-IsCoherent reached (λ n ids e. absurd (none-ne-some ids e)) in
      let r = read-Reads name f (h remote_executors) in
      (r.value (h name), r.same, read-IsCoherent name f h)
