-- ===== src/Removal/Leaf.antt =====
-- `ph_actor_remove_from_table` of src/classes/actor.c for an actor that neither supervises nor is
-- supervised.
use phactor.Base.{
  [], ◌∷◌, List, length, ◌<◌, ℕ, suc, ◌≡◌, refl, sym, ap, ◌∙◌, subst, ◌≢◌, inl, inr, true, Option,
  none, some, arith, ◌==◌, if◌then◌else◌, Ptr, null, Option-cases,
}
use phactor.HashTable.{
  Bucket, HashTable, at, find_index, bury, ph_hashtable_search_direct, ph_hashtable_search,
  ph_hashtable_delete_direct,
}
use phactor.HashTable.Delete.{search-find_index, value_at}
use phactor.HashTable.Laws.{search-delete, same_key}
use phactor.HashTable.Valid.{IsValid}
use phactor.PhString.{PhString}
use phactor.Removal.{
  ph_actor_free_dummy, leave_supervisor, remove_workers, delete_found, delete_by_ref,
  delete_by_name, delete_name, remove_with, ph_actor_mark_for_removal, ph_actor_remove_from_table,
}
use phactor.System.{Actor, Supervision, System, Platform, shutting_down, update, put_actor}
use phactor.System.Machine.{Cmd, ok, Returns}
use phactor.Vector.{ph_vector_push}

-- the table after a deletion
abbrev pub deleted : HashTable → PhString → ℕ → HashTable
deleted ht key hash = (ph_hashtable_delete_direct ph_actor_free_dummy (some key) hash ht tt).0

-- a key is found no more, and every other key as before
abbrev pub Gone : HashTable → HashTable → PhString → ℕ → Type 0
Gone ht ht' key hash =
    IsValid ht'
    × ((key' : Option PhString) (hash' : ℕ)
        → ph_hashtable_search_direct ht' key' hash' ≡ (
            if same_key (some key) hash key' hash'
            then null
            else ph_hashtable_search_direct ht key' hash'))

deleted-Gone :
    (ht : HashTable) (key : PhString) (hash : ℕ)
    → IsValid ht
    → Gone ht (deleted ht key hash) key hash
deleted-Gone ht key hash v =
    let (valid, found, _) = search-delete ph_actor_free_dummy ht (some key) hash tt v in
    (valid, found)

bury-Gone :
    (ht : HashTable) (key : PhString) (hash j : ℕ)
    → find_index ht (some key) hash ≡ some j
    → IsValid ht
    → Gone ht (bury j ht) key hash
unfolding ph_hashtable_delete_direct
bury-Gone ht key hash j e v =
    let same : deleted ht key hash ≡ bury j ht = rw (deleted, ph_hashtable_delete_direct, e) refl in
    subst (λ t. Gone ht t key hash) same (deleted-Gone ht key hash v)

found_at :
    (ht : HashTable) (key : PhString) (hash : ℕ) (p : Ptr)
    → ph_hashtable_search_direct ht (some key) hash ≡ p
    → p ≢ null
    → (j : ℕ) × (find_index ht (some key) hash ≡ some j) × ((at ht.values j).value ≡ p)
found_at ht key hash p found ne =
    let same = search-find_index ht (some key) hash in
    elim (Option-cases (find_index ht (some key) hash)) [
      | inl e ↦ absurd (ne (sym found ∙ same ∙ ap (value_at ht.values) e))
      | inr (j, e) ↦ (j, e, sym (ap (value_at ht.values) e) ∙ sym same ∙ found)
    ]

module _ {M : Type 0} (platform : Platform) where
  open platform use {zend_hash_func}

  -- What the removal of the actor `a` at `p`, of the name `n`, makes of `s`.
  pub record Removes (s : System M) (p : Ptr) (a : Actor M) (n : PhString) (t : System M)
      : Type 0 where
    pub actor : t.actors p ≡ some (record a { state = shutting_down })
    pub others : (q : Ptr) → q ≢ p → t.actors q ≡ s.actors q
    pub by_ref : Gone s.actors_by_ref t.actors_by_ref a.ref (zend_hash_func a.ref)
    pub by_name : Gone s.actors_by_name t.actors_by_name n (zend_hash_func n)
    pub marked :
        t.actor_removals a.thread_offset ≡ ph_vector_push (s.actor_removals a.thread_offset) p
    pub queues : t.threads ≡ s.threads
    pub lock : t.actors_by_ref_lock ≡ s.actors_by_ref_lock

  leave_supervisor-null : (p v : Ptr) (s : System M) → v ≡ null → leave_supervisor p v s ≡ ok tt s
  unfolding leave_supervisor
  leave_supervisor-null p v s e = rw e refl

  remove_workers-none :
      (f : Ptr → Cmd M (Unit {0})) (p : Ptr) (o : Option Supervision) (s : System M)
      → o ≡ none
      → remove_workers f p o s ≡ ok tt s
  unfolding remove_workers
  remove_workers-none f p o s e = rw e refl

  delete_name-some :
      (bs : List Bucket) (n : PhString) (s : System M)
      → 0 < length bs
      → delete_name platform bs n s
        ≡ ok tt (record s { actors_by_name = deleted s.actors_by_name n (zend_hash_func n) })
  unfolding delete_name
  delete_name-some [] n s h = absurd (omega arith)
  delete_name-some (b ∷ bs) n s h = refl

  delete_by_name-some :
      (o : Option PhString) (n : PhString) (s : System M)
      → o ≡ some n
      → IsValid s.actors_by_name
      → delete_by_name platform o s
        ≡ ok tt (record s { actors_by_name = deleted s.actors_by_name n (zend_hash_func n) })
  unfolding delete_by_name
  delete_by_name-some o n s e v =
      let size : 0 < length s.actors_by_name.values =
        omega (arith, v.shaped.width, v.shaped.positive) in
      rw e (delete_name-some s.actors_by_name.values n s size)

  abbrev marked_state : Ptr → Actor M → System M → System M
  marked_state p a s = record s {
    actors = update s.actors p (some (record a { state = shutting_down }));
    actor_removals =
        update s.actor_removals a.thread_offset
          (ph_vector_push (s.actor_removals a.thread_offset) p);
  }

  mark_leaf :
      (fuel : ℕ) (p : Ptr) (a : Actor M) (s : System M)
      → s.actors p ≡ some a
      → a.supervisor ≡ null
      → a.supervision ≡ none
      → ph_actor_mark_for_removal platform (suc fuel) p s ≡ ok tt (marked_state p a s)
  unfolding ph_actor_mark_for_removal
  mark_leaf fuel p a s h free alone =
      let here : (p == p) ≡ true = ground arith in
      let t = put_actor p (record a { state = shutting_down }) s in
      rw
        (
          h,
          leave_supervisor-null p a.supervisor t free,
          here,
          remove_workers-none (remove_with platform (ph_actor_mark_for_removal platform fuel)) p
              a.supervision t alone,
        )
        refl

  -- Removing an actor that has a name, no supervisor and supervises none, and that its ref
  -- leads to in well-formed tables, returns: neither its ref nor its name is found any more and
  -- every other key as before, the actor is shutting down and marked for its thread to free,
  -- and every other actor and the queues are as before.
  pub remove_from_table-Removes :
      (fuel : ℕ) (p : Ptr) (a : Actor M) (n : PhString) (s : System M)
      → s.actors p ≡ some a
      → p ≢ null
      → a.name ≡ some n
      → a.supervisor ≡ null
      → a.supervision ≡ none
      → IsValid s.actors_by_ref
      → IsValid s.actors_by_name
      → ph_hashtable_search zend_hash_func s.actors_by_ref a.ref ≡ p
      → Returns (ph_actor_remove_from_table platform (suc fuel) p s) (λ _ t. Removes s p a n t)
  unfolding ph_actor_remove_from_table remove_with delete_by_ref delete_found ph_hashtable_search
  remove_from_table-Removes fuel p a n s h ne named free alone v v' found =
      let here : (p == p) ≡ true = ground arith in
      let (j, e, value) = found_at s.actors_by_ref a.ref (zend_hash_func a.ref) p found ne in
      let named_out = record s { actors_by_name = deleted s.actors_by_name n (zend_hash_func n) } in
      (
        tt,
        record s {
          actors = update s.actors p (some (record a { state = shutting_down }));
          actors_by_name = deleted s.actors_by_name n (zend_hash_func n);
          actors_by_ref = bury j s.actors_by_ref;
          actor_removals =
              update s.actor_removals a.thread_offset
                (ph_vector_push (s.actor_removals a.thread_offset) p);
        },
        rw
            (
              h,
              delete_by_name-some a.name n s named v',
              e,
              value,
              mark_leaf fuel p a named_out h free alone,
            )
            refl,
        record {
          actor = ground arith;
          others = λ q far. ground arith;
          by_ref = bury-Gone s.actors_by_ref a.ref (zend_hash_func a.ref) j e v;
          by_name = deleted-Gone s.actors_by_name n (zend_hash_func n) v';
          marked = ground arith;
          queues = refl;
          lock = refl;
        },
      )
