-- ===== src/Policy/Lru/Order.antt =====
-- LRUPolicy refines a list of uses, most recent first: the iterators and the map are gone.
mod Nodes
unfoldable pub use Nodes.*
use distributed_in_memory_kv.Prelude.{
  ℕ, ◌+◌, ◌<◌, ◌≡◌, ◌≢◌, refl, sym, ◌⊎◌, ◌↔◌, inl, inr, true, false, Option, none, some, List, [],
  ◌∷◌, Bytes, arith, str_eq, str_eq_iff, ◌==◌, if◌then◌else◌, Option-cases, Bool-cases, length,
}
use distributed_in_memory_kv.Policy.StringMap.{
  StringMap, find, erase, assign, find-erase, find-assign, erase_absent,
}
use distributed_in_memory_kv.Policy.Lru.{
  Entry, LruPolicy, new, deref, erase_node, push_front, move_to_front, on_access, on_insert,
  release, on_delete, back_key, get_eviction_candidate,
}

-- Each operation keeps the policy well formed, and acts on the uses as the list alone would.
pub record Acts (us : List Use) (p : LruPolicy) : Type 0 where
  pub valid : IsValid p
  pub order : uses p ≡ us

pub new-IsValid : (limit : ℕ) → IsValid (new limit)
unfolding new index
new-IsValid limit = record { indexed = refl; distinct = tt; below = tt }

-- In a valid policy, inserting a key that is not tracked puts it at the front of the list, leaves the
-- others in their order, and keeps the policy valid.
pub on_insert-Acts :
    {p : LruPolicy} (key : Bytes) (value_size last_access_ns : ℕ)
    → IsValid p
    → find_use key (uses p) ≡ none
    → Acts
        (record { key = key; last_access_ns = last_access_ns; value_size = value_size } ∷ uses p)
        (on_insert key value_size last_access_ns p)
unfolding on_insert index uses_of assign
on_insert-Acts {p} key n t v fresh =
    let l = p.access_list in
    let free = find_use-index key l fresh in
    record {
      valid = record {
        indexed = rw (v.indexed, erase_absent key (index l) free);
        distinct = (free, deref_fresh p.next_node l v.below, v.distinct);
        below = (omega arith, Below-suc p.next_node l v.below);
      };
      order = refl;
    }

-- In a valid policy, deleting a key takes its entry out of the list, if it has one, leaves the others in their order,
-- and keeps the policy valid.
pub on_delete-Acts :
    {p : LruPolicy} (key : Bytes) (value_size : ℕ)
    → IsValid p
    → Acts (without key (uses p)) (on_delete key value_size p)
unfolding on_delete release
on_delete-Acts {p} key n v =
    let l = p.access_list in
    elim (Option-cases (find key p.key_to_iter)) [
      | inl e ↦ rw e (record { valid = v; order = sym (without_absent key l (rw v.indexed at e)) })
      | inr (it, e) ↦
          let found : find key (index l) ≡ some it = rw v.indexed at e in
          let at = locate key it l v.distinct found in
          rw e (record {
            valid = record {
              indexed = rw v.indexed (sym at.index_after);
              distinct = Distinct-erase_node key it l v.distinct found;
              below = Below-erase_node p.next_node it l v.below;
            };
            order = at.uses_after;
          })
    ]

moved-Acts :
    {p : LruPolicy} {key : Bytes} {it : ℕ} (t : ℕ) (at : Located key it p.access_list)
    → IsValid p
    → find key (index p.access_list) ≡ some it
    → Acts (record (use_of at.entry) { last_access_ns = t } ∷ without key (uses p)) (
        push_front
          (record at.entry { last_access_ns = t })
          (record p { access_list = erase_node it p.access_list }))
unfolding push_front index uses_of assign
moved-Acts {p} {key} {it} t at v found =
    let l = p.access_list in
    let gone : find key (index (erase_node it l)) ≡ none =
      rw at.index_after (ground (arith, find-erase key key (index l), str_eq_iff key key)) in
    let below = Below-erase_node p.next_node it l v.below in
    record {
      valid = record {
        indexed = rw (at.keyed, v.indexed) (rw at.index_after);
        distinct = (
          rw at.keyed gone,
          deref_fresh _ _ below,
          Distinct-erase_node key it l v.distinct found,
        );
        below = (omega arith, Below-suc _ _ below);
      };
      order = rw at.uses_after;
    }

access_found :
    {p : LruPolicy} {key : Bytes} (t it : ℕ)
    → find key p.key_to_iter ≡ some it
    → Located key it p.access_list
    → IsValid p
    → find key (index p.access_list) ≡ some it
    → Acts (access_use key t (uses p)) (on_access key t p)
unfolding on_access access_use
access_found t it e at v found =
    rw (e, at.there, move_to_front, at.used, access_use) (moved-Acts t at v found)

-- In a valid policy, an access to a tracked key moves its entry to the front of the list, with the new time, leaves the
-- others in their order, and keeps the policy valid; an access to any other key changes nothing.
pub on_access-Acts :
    {p : LruPolicy} (key : Bytes) (t : ℕ)
    → IsValid p
    → Acts (access_use key t (uses p)) (on_access key t p)
unfolding on_access access_use
on_access-Acts {p} key t v =
    let l = p.access_list in
    elim (Option-cases (find key p.key_to_iter)) [
      | inl e ↦
          rw (e, find_use_absent key l (rw v.indexed at e), access_use)
            (record { valid = v; order = refl })
      | inr (it, e) ↦
          let found : find key (index l) ≡ some it = rw v.indexed at e in
          access_found t it e (locate key it l v.distinct found) v found
    ]

-- The same facts through the map, which is what the operations of the policy look at.
pub untracked_use :
    (key : Bytes) {p : LruPolicy}
    → IsValid p
    → find key p.key_to_iter ≡ none
    → find_use key (uses p) ≡ none
untracked_use key {p} v e = find_use_absent key p.access_list (rw v.indexed at e)

pub find-on_access :
    (key q : Bytes) (t : ℕ) {p : LruPolicy}
    → IsValid p
    → ((find q (on_access key t p).key_to_iter ≡ none) ↔ (find q p.key_to_iter ≡ none))
unfolding on_access push_front
find-on_access key q t {p} v = elim (Option-cases (find key p.key_to_iter)) [
  | inl e ↦ rw e (λ h. h, λ h. h)
  | inr (it, e) ↦
      let at = locate key it p.access_list v.distinct (rw v.indexed at e) in
      let moved = find-assign at.entry.key q p.next_node p.key_to_iter in
      rw (e, at.there, move_to_front)
        (
          λ h. ground (arith, moved, h, at.keyed),
          λ h. ground (arith, moved, h, at.keyed, str_eq_iff at.entry.key q),
        )
]

pub length-on_delete :
    (key : Bytes) (value_size it : ℕ) {p : LruPolicy}
    → IsValid p
    → find key p.key_to_iter ≡ some it
    → length (on_delete key value_size p).access_list + 1 ≡ length p.access_list
unfolding on_delete
length-on_delete key n it {p} v e =
    rw e (locate key it p.access_list v.distinct (rw v.indexed at e)).shorter

find-back_key : (e : Entry) (l : List Entry) → find (back_key (e ∷ l)) (index (e ∷ l)) ≢ none
unfolding back_key find index
find-back_key e [] h = ground (arith, str_eq_iff e.key e.key)
find-back_key e (e' ∷ l) h = ground (arith, find-back_key e' l)

-- The candidate is tracked, unless nothing is.
pub back_key_tracked :
    {p : LruPolicy}
    → IsValid p
    → (find (get_eviction_candidate p) p.key_to_iter ≢ none)
      ⊎ ((get_eviction_candidate p ≡ []) × ((q : Bytes) → find q p.key_to_iter ≡ none))
unfolding get_eviction_candidate index find
back_key_tracked {p} v = rw v.indexed (split p.access_list)
  where
    split :
        (l : List Entry)
        → (find (back_key l) (index l) ≢ none)
          ⊎ ((back_key l ≡ []) × ((q : Bytes) → find q (index l) ≡ none))
    split [] = inr (refl, λ q. refl)
    split (e ∷ l) = inl (find-back_key e l)

pub on_access_memory :
    (key : Bytes) (t : ℕ) (p : LruPolicy)
    → ((on_access key t p).current_memory ≡ p.current_memory)
      × ((on_access key t p).memory_limit ≡ p.memory_limit)
unfolding on_access push_front
on_access_memory key t p = ground arith
