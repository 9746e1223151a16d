-- ===== src/Discovery/Index.antt =====
-- Laws of the index from hashes to keys (chatx5/core/discovery.py): which keys stand under a hash once
-- a row has been put in or taken out.
use chatx.Prelude.{
  ◌≡◌, refl, ◌∙◌, Bool, true, false, not, ◌&&◌, ◌||◌, List, [], ◌∷◌, ◌++◌, arith, ◌==◌, nat_eq,
  contains, keep,
}
use chatx.Text.{Str, str_eq, str_beq_iff}
use chatx.Dict.{Dict, lookup}
use chatx.Dict.Laws.{lookup-insert, lookup-erase}
use chatx.Discovery.{
  or_nil, is_empty, add, discard, index_hash, index_hashes, unindex_hash, unindex_hashes,
}

-- Whether a key stands in the index under a hash.
abbrev pub stands : Dict (List Str) → Str → Str → Bool
stands index h k = contains k (or_nil (lookup h index))

pub contains-append :
    (j : Str) (xs ys : List Str) → contains j (xs ++ ys) ≡ (contains j xs || contains j ys)
unfolding contains
contains-append j [] ys = refl
contains-append j (x ∷ xs) ys = ground (arith, contains-append j xs ys)

contains-add : (j k : Str) (ks : List Str) → contains j (add k ks) ≡ (j == k || contains j ks)
unfolding contains
contains-add j k ks = ground (arith, contains-append j ks (k ∷ []), str_beq_iff j k)

pub contains-keep :
    (p : Str → Bool) (j : Str) (ks : List Str) → contains j (keep p ks) ≡ (contains j ks && p j)
unfolding contains keep
contains-keep p j [] = refl
contains-keep p j (k ∷ ks) = ground (arith, contains-keep p j ks, str_beq_iff j k)

contains-is_empty : (j : Str) (ks : List Str) → is_empty ks ≡ true → contains j ks ≡ false
unfolding contains
contains-is_empty j [] e = refl
contains-is_empty j (k ∷ ks) e = cc

stands-index_hash :
    (k h : Str) (index : Dict (List Str)) (h' k' : Str)
    → stands (index_hash k h index) h' k' ≡ (h == h' && k' == k || stands index h' k')
unfolding index_hash
stands-index_hash k h index h' k' = ground (
  arith,
  lookup-insert h' h (add k (or_nil (lookup h index))) index,
  contains-add k' k (or_nil (lookup h index)),
  str_beq_iff h h',
)

pub stands-index_hashes :
    (k : Str) (hs : List Str) (index : Dict (List Str)) (h' k' : Str)
    → stands (index_hashes k hs index) h' k' ≡ (contains h' hs && k' == k || stands index h' k')
unfolding index_hashes contains
stands-index_hashes k [] index h' k' = refl
stands-index_hashes k (h ∷ hs) index h' k' =
    stands-index_hashes k hs (index_hash k h index) h' k'
    ∙ ground (arith, stands-index_hash k h index h' k', str_beq_iff h h', str_beq_iff h' h)

stands-unindex_hash :
    (k h : Str) (index : Dict (List Str)) (h' k' : Str)
    → stands (unindex_hash k h index) h' k' ≡ (stands index h' k' && not (h == h' && k' == k))
unfolding unindex_hash
stands-unindex_hash k h index h' k' = ground (
  arith,
  lookup-insert h' h (discard k (or_nil (lookup h index))) index,
  lookup-erase h' h index,
  contains-keep (λ j. not (j == k)) k' (or_nil (lookup h index)),
  contains-is_empty k' (or_nil (lookup h index)),
  contains-is_empty k' (discard k (or_nil (lookup h index))),
  str_beq_iff h h',
)

pub stands-unindex_hashes :
    (k : Str) (hs : List Str) (index : Dict (List Str)) (h' k' : Str)
    → stands (unindex_hashes k hs index) h' k'
      ≡ (stands index h' k' && not (contains h' hs && k' == k))
unfolding unindex_hashes contains
stands-unindex_hashes k [] index h' k' = ground arith
stands-unindex_hashes k (h ∷ hs) index h' k' =
    stands-unindex_hashes k hs (unindex_hash k h index) h' k'
    ∙ ground (arith, stands-unindex_hash k h index h' k', str_beq_iff h h', str_beq_iff h' h)
