-- ===== src/Scheduler/Dispatched.antt =====
-- The loops of `dispatch_tasks`: the one over the queue ends, and no task is lost in either.
use smallpond.Prelude.{
  ℕ, zero, suc, ◌≤◌, ◌<◌, ◌≡◌, refl, sym, ap, ◌∙◌, subst, Bool, true, false, ◌||◌, or-right, ◌⊎◌,
  inl, inr, List, [], ◌∷◌, ◌++◌, Option, none, some, length, arith, All, Bool-cases,
}
use smallpond.Queue.{Backend}
use smallpond.Remote.{RemoteExecutor}
use smallpond.Scheduler.{Task, Config, has_task}
use smallpond.Scheduler.Plan.{Plan, IsAcyclic, IsSound}
use smallpond.Scheduler.Lookup.{has_task-append}
use smallpond.Scheduler.Sound.{has_task-last}
use smallpond.Scheduler.Budget.{budget}
use smallpond.Scheduler.Capacity.{IsWithin}
use smallpond.Scheduler.Given.{Ends, Ends-bind, Ends-map, find_executor-IsWithin}
use smallpond.Scheduler.Loop.{
  Round, set_queue, find_executor, offer_head, visit_executors, visiting_order, set_aside,
  dispatch_round, is_going, dispatch_loop,
}
use smallpond.Scheduler.Served.{
  Serves, is_kept, cost, queued, runs, done, where_kept, kept_where, head_or_tail,
  set_queue-IsSound, offer-Ends,
}

module _ (p : Plan) {Q : Type 0} where
  Serves-trans : (r1 r2 r3 : Round Q) → Serves p r1 r2 → Serves p r2 r3 → Serves p r1 r3
  Serves-trans r1 r2 r3 g h = record {
    sound = h.sound;
    within = h.within;
    same_count = h.same_count ∙ g.same_count;
    keeps = λ k there. h.keeps k (g.keeps k there);
    spends = let x = g.spends in let y = h.spends in omega arith;
    marks = λ popped. h.marks (g.marks popped);
    stays = λ unpopped. elim (Bool-cases r2.popped) [
      | inl popped ↦ let marked = h.marks popped in absurd (cc)
      | inr still ↦ let x = g.stays still in let y = h.stays unpopped in omega arith
    ];
  }

  Serves-refl : (r : Round Q) → IsSound p r.state → All IsWithin r.executors → Serves p r r
  Serves-refl r i w = record {
    sound = i;
    within = w;
    same_count = refl;
    keeps = λ k there. there;
    spends = omega arith;
    marks = λ h. h;
    stays = λ h. omega arith;
  }

-- A task that is set aside or kept.
abbrev pub is_held : {Q : Type 0} → ℕ → List Task → Round Q → Bool
is_held k unassigned r = has_task k unassigned || is_kept k r

module _ (p : Plan) {Q : Type 0} where
  -- From a round with tasks set aside to the next one.
  pub record Finishes (unassigned aside : List Task) (r r' : Round Q) : Type 0 where
    pub sound : IsSound p r'.state
    pub within : All IsWithin r'.executors
    pub same_count : length r'.executors ≡ length r.executors
    pub keeps : (k : ℕ) → is_held k unassigned r ≡ true → is_held k aside r' ≡ true

  record Advances (unassigned aside : List Task) (r r' : Round Q) : Type 0 where
    sound : IsSound p r'.state
    within : All IsWithin r'.executors
    same_count : length r'.executors ≡ length r.executors
    keeps : (k : ℕ) → is_held k unassigned r ≡ true → is_held k aside r' ≡ true
    fewer : budget r'.state < budget r.state

  Finishes-refl :
      (unassigned : List Task) (r : Round Q)
      → IsSound p r.state
      → All IsWithin r.executors
      → Finishes unassigned unassigned r r
  Finishes-refl unassigned r i w = record {
    sound = i;
    within = w;
    same_count = refl;
    keeps = λ k h. h;
  }

  Finishes-step :
      (u1 u2 u3 : List Task) (r1 r2 r3 : Round Q)
      → Advances u1 u2 r1 r2
      → Finishes u2 u3 r2 r3
      → Finishes u1 u3 r1 r3
  Finishes-step u1 u2 u3 r1 r2 r3 g h = record {
    sound = h.sound;
    within = h.within;
    same_count = h.same_count ∙ g.same_count;
    keeps = λ k there. h.keeps k (g.keeps k there);
  }

  held_cases :
      (k : ℕ) (us : List Task) (r : Round Q)
      → is_held k us r ≡ true
      → (has_task k us ≡ true) ⊎ (is_kept k r ≡ true)
  held_cases k us r h = elim (Bool-cases (has_task k us)) [
    | inl e ↦ inl e
    | inr e ↦ inr (rw e at h)
  ]

  -- `set_aside`, by its cases.
  put_aside :
      (unassigned : List Task) (r r' : Round Q)
      → Serves p (record r { popped = false }) r'
      → 0 < length r.state.sched_queue
      → (popped : Bool) (queue : List Task) → r'.popped ≡ popped
      → r'.state.sched_queue ≡ queue
      → Advances unassigned
          (set_aside popped queue unassigned).1
          r
          (record r' { state = set_queue (set_aside popped queue unassigned).0 r'.state })
  put_aside unassigned r r' serves some_left true queue marked same =
      let spends = serves.spends in
      let one : cost r'.popped ≡ 1 = ap cost marked in
      let long : length r'.state.sched_queue ≡ length queue = ap length same in
      record {
        sound = set_queue-IsSound p queue r'.state serves.sound;
        within = serves.within;
        same_count = serves.same_count;
        keeps = λ k h. elim (held_cases k unassigned r h) [
          | inl there ↦ rw there refl
          | inr there ↦ or-right (has_task k unassigned) _ (rw same at (serves.keeps k there))
        ];
        fewer = omega arith;
      }
  put_aside unassigned r r' serves some_left false [] marked same =
      let stays = serves.stays marked in
      let none_left : length r'.state.sched_queue ≡ 0 = ap length same in absurd (omega arith)
  put_aside unassigned r r' serves some_left false (t ∷ ts) marked same =
      let spends = serves.spends in
      let long : length r'.state.sched_queue ≡ length (t ∷ ts) = ap length same in
      let next = record r' { state = set_queue ts r'.state } in
      record {
        sound = set_queue-IsSound p ts r'.state serves.sound;
        within = serves.within;
        same_count = serves.same_count;
        keeps = λ k h. elim (held_cases k unassigned r h) [
          | inl there ↦ rw (has_task-append k unassigned (t ∷ []) there) refl
          | inr there ↦ elim (where_kept k r' (serves.keeps k there)) [
            | runs on ↦ or-right (has_task k (unassigned ++ t ∷ [])) _ (kept_where k next (runs on))
            | done has ↦
                or-right (has_task k (unassigned ++ t ∷ [])) _ (kept_where k next (done has))
            | queued here ↦ elim (head_or_tail k t ts (rw same at here)) [
              | inl head ↦ rw (← head, has_task-last t unassigned) refl
              | inr tail ↦
                  or-right (has_task k (unassigned ++ t ∷ [])) _ (kept_where k next (queued tail))
            ]
          ]
        ];
        fewer = omega arith;
      }

module _ (p : Plan) (cfg : Config) (acyclic : IsAcyclic p) (enough : p.depth < cfg.fuel) where
  module _ {Q : Type 0} (b : Backend Q) (final_phase : Bool) (enabled : Task → Bool) where
    offer_head-Ends :
        (id : ℕ) (r : Round Q) (queue : List Task) (found : Option (RemoteExecutor Q))
        → r.state.sched_queue ≡ queue
        → find_executor id r.executors ≡ found
        → IsSound p r.state
        → All IsWithin r.executors
        → Ends (offer_head b cfg final_phase enabled queue found r) (Serves p r)
    unfolding offer_head
    offer_head-Ends id r [] none head there i w = Serves-refl p r i w
    offer_head-Ends id r [] (some e) head there i w = Serves-refl p r i w
    offer_head-Ends id r (t ∷ ts) none head there i w = Serves-refl p r i w
    offer_head-Ends id r (t ∷ ts) (some e) head there i w =
        let (_, same) = find_executor-IsWithin id r.executors e w there in
        offer-Ends p cfg acyclic enough b final_phase enabled t ts e r head i w
          (subst (λ i. find_executor i r.executors ≡ some e) (sym same) there)

    visit_executors-Ends :
        (ids : List ℕ) (r : Round Q)
        → IsSound p r.state
        → All IsWithin r.executors
        → Ends (visit_executors b cfg final_phase enabled ids r) (Serves p r)
    unfolding visit_executors
    visit_executors-Ends [] r i w = Serves-refl p r i w
    visit_executors-Ends (id ∷ ids) r i w =
        Ends-bind
          (offer_head b cfg final_phase enabled r.state.sched_queue (find_executor id r.executors)
            r)
          _ _ (Serves p r)
          (offer_head-Ends id r r.state.sched_queue (find_executor id r.executors) refl refl i w)
          (λ r' first.
            Ends-map (visit_executors b cfg final_phase enabled ids r') (Serves p r') (Serves p r)
              (visit_executors-Ends ids r' first.sound first.within)
              (λ r'' rest. Serves-trans p r r' r'' first rest))

    -- One round of the loop over the queue, as `dispatch_round` does it.
    round-Ends :
        (unassigned : List Task) (r : Round Q)
        → IsSound p r.state
        → All IsWithin r.executors
        → is_going r ≡ true
        → Ends
            (dispatch_round b cfg final_phase enabled unassigned r)
            (λ (aside, r'). Advances p unassigned aside r r')
    unfolding dispatch_round
    round-Ends unassigned r i w going =
        let start = record r { popped = false } in
        Ends-bind (visit_executors b cfg final_phase enabled (visiting_order r.executors) start) _ _
          _ (visit_executors-Ends (visiting_order r.executors) start i w)
          (λ r' serves.
            put_aside p unassigned r r' serves (ground arith) r'.popped r'.state.sched_queue refl
              refl)

    pub loop-Ends :
        (fuel : ℕ) (unassigned : List Task) (r : Round Q)
        → budget r.state ≤ fuel
        → IsSound p r.state
        → All IsWithin r.executors
        → Ends
            (dispatch_loop b cfg final_phase enabled fuel unassigned r)
            (λ (aside, r'). Finishes p unassigned aside r r')
    unfolding dispatch_loop
    loop-Ends zero unassigned r small i w = elim (Bool-cases (is_going r)) [
      | inl going ↦ absurd (ground arith)
      | inr stop ↦ rw stop (Finishes-refl p unassigned r i w)
    ]
    loop-Ends (suc fuel) unassigned r small i w = elim (Bool-cases (is_going r)) [
      | inr stop ↦ rw stop (Finishes-refl p unassigned r i w)
      | inl going ↦ rw going (
          Ends-bind (dispatch_round b cfg final_phase enabled unassigned r) _ _ _
            (round-Ends unassigned r i w going)
            (λ (aside, r') step.
              let less = step.fewer in
              Ends-map (dispatch_loop b cfg final_phase enabled fuel aside r') _ _
                (loop-Ends fuel aside r' (omega arith) step.sound step.within)
                (λ (last, r'') rest. Finishes-step p unassigned aside last r r' r'' step rest)))
    ]
