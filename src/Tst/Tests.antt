-- ===== src/Tst/Tests.antt =====
-- tests/tst_test.c run on the model, and the theorems on the tree at small trees.
use c_liber.Prelude.{
  ℕ, ◌<◌, ◌^◌, arith, ◌≡◌, refl, ◌≢◌, List, [], ◌∷◌, none, some, if◌then◌else◌, pos, negsuc, length,
}
use c_liber.Tst.{
  null, owner, Node, nil, chr, val, Key, tst_search_r, insert_head_r, null_store, tst_delete_r,
  tst_destroy_r, Tree, tst_init, tst_search, tst_insert, tst_delete, failed,
}
use c_liber.Tst.Lookup.{eq_key, Reports, search-insert_head_r, insert_head_r-Reports}
use c_liber.Tst.Links.{IsLinked, IsSolid, insert_head_r-IsLinked, insert_all}
use c_liber.Tst.Delete.{Removes, tst_delete_r-Removes, delete-insert_all, delete_empty_key}
use c_liber.Tst.Count.{
  size, length-tst_destroy_r, Counts, tst_insert-IsCounted, Recounts, tst_delete-Recounts,
}

abbrev ke : Key
ke = b'k' ∷ b'e' ∷ []

abbrev key : Key
key = b'k' ∷ b'e' ∷ b'y' ∷ []

abbrev kei : Key
kei = b'k' ∷ b'e' ∷ b'i' ∷ []

-- "key", "ke" and "kei" with the values 1, 2 and 3.
abbrev three : Node
three =
    insert_all
      ((b'k', b'e' ∷ b'y' ∷ [], 1, 9)
        ∷ (b'k', b'e' ∷ [], 2, 9)
        ∷ (b'k', b'e' ∷ b'i' ∷ [], 3, 9)
        ∷ [])
      nil

three_found : tst_search_r three ke ≡ some 2
unfolding insert_head_r tst_search_r
three_found = refl

three_missing : tst_search_r three (b'k' ∷ []) ≡ none
unfolding insert_head_r tst_search_r
three_missing = refl

three_destroyed : tst_destroy_r three ≡ 2 ∷ 3 ∷ 1 ∷ []
unfolding insert_head_r tst_destroy_r
three_destroyed = refl

-- A tree with the key "ab" and the value 5, by hand.
abbrev ab : Node
ab = chr b'a' nil (chr b'b' nil (val 5 nil owner) nil) nil

abbrev a_key : Key
a_key = b'a' ∷ []

abbrev ab_key : Key
ab_key = b'a' ∷ b'b' ∷ []

ab-IsLinked : IsLinked null ab
ab-IsLinked = (tt, (tt, (refl, refl, tt), tt), tt)

ab-IsSolid : IsSolid ab
ab-IsSolid = (λ q. cc, tt, (λ q. cc, tt, tt, tt), tt)

insert_head_r-Reports_example :
    let s = insert_head_r ab null ab_key 6 4 in
    Reports 3 4 s.status (tst_search_r ab ab_key) s.old ab s.node
insert_head_r-Reports_example = insert_head_r-Reports ab null ab_key 6 4

stored : (insert_head_r ab null a_key 6 4).status ≢ failed
unfolding insert_head_r
stored = λ q. cc

search-insert_head_r_example :
    tst_search_r (insert_head_r ab null a_key 6 4).node ab_key
    ≡ (if eq_key a_key ab_key then some 6 else tst_search_r ab ab_key)
search-insert_head_r_example = search-insert_head_r ab null a_key ab_key 6 4 stored

insert_head_r-IsLinked_example :
    let s = insert_head_r ab null a_key 6 4 in IsLinked null s.node × IsSolid s.node
insert_head_r-IsLinked_example =
    insert_head_r-IsLinked ab null a_key 6 4 ab-IsLinked ab-IsSolid (λ q. absurd (cc))

tst_delete_r-Removes_example : Removes null ab_key ab (tst_delete_r ab ab_key)
tst_delete_r-Removes_example = tst_delete_r-Removes null ab ab_key ab-IsLinked

delete-insert_all_example :
    let t = insert_all ((b'a', [], 1, 2) ∷ (b'b', b'c' ∷ [], 2, 3) ∷ []) nil in
    Removes null a_key t (tst_delete_r t a_key)
delete-insert_all_example =
    delete-insert_all ((b'a', [], 1, 2) ∷ (b'b', b'c' ∷ [], 2, 3) ∷ []) a_key

delete_empty_key_example : tst_delete_r (insert_head_r ab null [] 3 1).node [] ≡ null_store
delete_empty_key_example = delete_empty_key ab 3 0 ab-IsLinked

length-tst_destroy_r_example : length (tst_destroy_r ab) ≡ size ab
length-tst_destroy_r_example = length-tst_destroy_r ab

abbrev one : Tree
one = record { head = ab; key_num = pos 1 }

tst_insert-IsCounted_example :
    let (st, old, t') = tst_insert one a_key 6 4 in
    (t'.key_num ≡ pos (length (tst_destroy_r t'.head)))
    × (length (tst_destroy_r t'.head) < 2 ^ 31)
    × Counts (tst_search one a_key) st one t'
unfolding tst_destroy_r
tst_insert-IsCounted_example = tst_insert-IsCounted one a_key 6 4 refl (omega arith)

tst_delete-Recounts_example :
    (t : Tree) × (freed : List ℕ) × (tst_delete one a_key ≡ some (t, freed))
    × Recounts (tst_search one a_key) t freed
tst_delete-Recounts_example = tst_delete-Recounts one a_key ab-IsLinked refl

-- A deletion of a key that is not there leaves an empty tree with -1 keys.
below_zero : tst_delete tst_init a_key ≡ some (record { head = nil; key_num = negsuc 0 }, [])
unfolding tst_delete tst_delete_r tst_init
below_zero = refl
