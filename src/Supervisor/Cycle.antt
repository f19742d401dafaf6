-- ===== src/Supervisor/Cycle.antt =====
-- A worker that became a supervisor is given its own supervisor as a worker:
-- `ph_supervisor_cycle_detection` and `ph_supervisor_add_worker` of src/classes/supervisor.c.
use phactor.Base.{
  ℕ, zero, suc, ◌≡◌, refl, sym, ap, ◌∙◌, ◌≢◌, true, false, Option, none, some, [], ◌∷◌, arith, ◌==◌,
  Ptr, null, Bool-cases, inl, inr,
}
use phactor.HashTable.{Bucket, ph_hashtable_init, ph_hashtable_insert_ind}
use phactor.HashTable.Single.{insert_ind-init}
use phactor.Supervisor.{
  enqueue_supervisor, renumber_supervision, scan_workers, after_scan, detection_loop, detect_below,
  ph_supervisor_cycle_detection, renumber_workers, renumber_loop, renumber_below,
  ph_supervisor_add_worker,
}
use phactor.System.{Actor, System, Supervision, put_actor}
use phactor.System.Machine.{ok, out_of_fuel}

enqueue_one :
    (q : Ptr) (o : Option Supervision) (sv : Supervision)
    → o ≡ some sv
    → enqueue_supervisor [] q o ≡ q ∷ []
unfolding enqueue_supervisor
enqueue_one q o sv e = rw e refl

module _ {M : Type 0} where
  -- the actor at `p` supervises the one at `q` and no other
  pub record SupervisesOnly (s : System M) (p q : Ptr) : Type 0 where
    pub actor : Actor M
    pub supervision : Supervision
    pub bucket : Bucket
    pub at_p : s.actors p ≡ some actor
    pub supervises : actor.supervision ≡ some supervision
    pub workers : supervision.workers.values ≡ bucket ∷ []
    pub value : bucket.value ≡ q

  -- the writes of the loop
  renumbered :
      (n : ℕ) (s : System M) (p q r : Ptr) (a : Actor M)
      → s.actors r ≡ some a
      → SupervisesOnly s p q
      → SupervisesOnly
          (put_actor r
            (record a { tree_number = n; supervision = renumber_supervision n a.supervision })
            s)
          p
          q
  unfolding renumber_supervision
  renumbered n s p q r a h x = elim (Bool-cases (p == r)) [
    | inl e ↦
        let same : x.actor ≡ a = ground (arith, x.at_p) in
        record {
          actor = record a { tree_number = n; supervision = renumber_supervision n a.supervision };
          supervision = record (x.supervision) { tree_number = n };
          bucket = x.bucket;
          at_p = ground arith;
          supervises =
              ap (renumber_supervision n) (ap (λ c. c.supervision) (sym same) ∙ x.supervises);
          workers = x.workers;
          value = x.value;
        }
    | inr e ↦ record {
      actor = x.actor;
      supervision = x.supervision;
      bucket = x.bucket;
      at_p = ground (arith, x.at_p);
      supervises = x.supervises;
      workers = x.workers;
      value = x.value;
    }
  ]

  -- two actors that supervise each other
  renumber_loop-cycle :
      (fuel n : ℕ) (p q : Ptr) (s : System M)
      → q ≢ null
      → p ≢ null
      → SupervisesOnly s p q
      → SupervisesOnly s q p
      → renumber_loop fuel n (p ∷ []) s ≡ out_of_fuel
  unfolding renumber_loop renumber_workers
  renumber_loop-cycle zero n p q s ne ne' x y = refl
  renumber_loop-cycle (suc fuel) n p q s ne ne' x y =
      let far : (q == null) ≡ false = ground arith in
      let s' =
        put_actor q
          (record (y.actor) {
            tree_number = n;
            supervision = renumber_supervision n y.actor.supervision;
          })
          s in
      let rest =
        renumber_loop-cycle fuel n q p s' ne' ne (renumbered n s q p q y.actor y.at_p y)
          (renumbered n s p q q y.actor y.at_p x) in
      rw
        (
          x.at_p,
          x.supervises,
          x.workers,
          x.value,
          far,
          y.at_p,
          enqueue_one q y.actor.supervision y.supervision y.supervises,
        )
        rest

  renumber_below-some :
      (fuel n : ℕ) (w : Ptr) (o : Option Supervision) (sv : Supervision) (t : System M)
      → o ≡ some sv
      → renumber_below fuel n w o t ≡ renumber_loop fuel n (w ∷ []) t
  unfolding renumber_below
  renumber_below-some fuel n w o sv t e = rw e refl

  module _ (p w : Ptr) (s : System M) (a : Actor M) (sp : Supervision) (x : SupervisesOnly s w p)
      (ne : p ≢ null) (ne' : w ≢ null) (apart : w ≢ p) (h : s.actors p ≡ some a)
      (e : a.supervision ≡ some sp) (fresh : sp.workers ≡ ph_hashtable_init 1) where
    detection-misses :
        (fuel : ℕ)
        → a.tree_number ≢ sp.tree_number
        → ph_supervisor_cycle_detection (suc (suc fuel)) p w s ≡ ok false s
    unfolding ph_supervisor_cycle_detection detect_below detection_loop scan_workers after_scan
        enqueue_supervisor ph_hashtable_init
    detection-misses fuel different =
        let far : (p == null) ≡ false = ground arith in
        let other : (a.tree_number == sp.tree_number) ≡ false = ground arith in
        rw
          (
            x.at_p, x.supervises, h, e, x.at_p, x.supervises, x.workers, x.value, far, h, other, e,
            h, e, fresh,
          )
          refl

    abbrev adopter : Actor M
    adopter = record a {
      supervision = some (record sp { workers = ph_hashtable_insert_ind sp.workers w w });
    }

    abbrev adopted : Actor M
    adopted = record (x.actor) {
      supervisor = p;
      tree_number = sp.tree_number;
      supervision = renumber_supervision sp.tree_number x.actor.supervision;
    }

    abbrev cyclic : System M
    cyclic = put_actor w adopted (put_actor p adopter s)

    up : SupervisesOnly cyclic w p
    unfolding renumber_supervision
    up = record {
      actor = adopted;
      supervision = record (x.supervision) { tree_number = sp.tree_number };
      bucket = x.bucket;
      at_p = ground arith;
      supervises = ap (renumber_supervision sp.tree_number) x.supervises;
      workers = x.workers;
      value = x.value;
    }

    down : SupervisesOnly cyclic p w
    down = record {
      actor = adopter;
      supervision = record sp { workers = ph_hashtable_insert_ind sp.workers w w };
      bucket = record { key = none; value = w; hash = w; variance = 0 };
      at_p = ground arith;
      supervises = refl;
      workers = ap (λ ht. (ph_hashtable_insert_ind ht w w).values) fresh ∙ insert_ind-init w w;
      value = refl;
    }

    add_worker-diverges : (fuel : ℕ) → ph_supervisor_add_worker fuel p w s ≡ out_of_fuel
    unfolding ph_supervisor_add_worker
    add_worker-diverges fuel =
        let here : (p == p) ≡ true = ground arith in
        let other : (w == p) ≡ false = ground arith in
        let far : w ≢ p = apart in
        rw
          (
            h,
            e,
            h,
            e,
            other,
            x.at_p,
            renumber_below-some fuel sp.tree_number w x.actor.supervision x.supervision cyclic
                x.supervises,
          )
          (renumber_loop-cycle fuel sp.tree_number w p cyclic ne ne' up down)

  -- Let `w` supervise `p` and no other, in a table of one bucket, and let `p` supervise,
  -- without workers, a tree with a number that is not the number `p` has as a worker. The
  -- detection then denies that a cycle arises if `w` becomes a worker of `p`, and to make it
  -- one does not end, whatever the fuel.
  pub cycle_detection-misses :
      (fuel : ℕ) (p w : Ptr) (s : System M) (a : Actor M) (sp : Supervision)
      → SupervisesOnly s w p
      → p ≢ null
      → w ≢ null
      → w ≢ p
      → s.actors p ≡ some a
      → a.supervision ≡ some sp
      → sp.workers ≡ ph_hashtable_init 1
      → a.tree_number ≢ sp.tree_number
      → (ph_supervisor_cycle_detection (suc (suc fuel)) p w s ≡ ok false s)
        × (ph_supervisor_add_worker fuel p w s ≡ out_of_fuel)
  cycle_detection-misses fuel p w s a sp x ne ne' apart h e fresh different = (
    detection-misses p w s a sp x ne ne' apart h e fresh fuel different,
    add_worker-diverges p w s a sp x ne ne' apart h e fresh fuel,
  )
