-- ===== src/Scanner/Chain.antt =====
-- Blocks that follow one another by the hash of their parents.
pub mod Outcomes
pub mod Kept
pub mod Syncs
pub mod NewBlock
use staking_indexer.Prelude.{
  true, Bool, Option, none, some, List, [], ◌∷◌, ◌++◌, ◌≡◌, refl, ap, bytes_eq, bytes_eq→eq,
  bytes_eq_refl, get_last?, length, ◌<◌, arith,
}
use staking_indexer.Wire.{Codec}
use staking_indexer.Wire.Blocks.{IndexedBlock, block_hash}
use staking_indexer.Scanner.Poller.{connects, follows, new_tip}

-- The last block of a list, or `o` of the empty list.
abbrev pub last_from : Option IndexedBlock → List IndexedBlock → Option IndexedBlock
last_from o [] = o
last_from o (x ∷ xs) = last_from (some x) xs

pub last_from-append :
    (o : Option IndexedBlock) (xs ys : List IndexedBlock)
    → last_from o (xs ++ ys) ≡ last_from (last_from o xs) ys
last_from-append o [] ys = refl
last_from-append o (x ∷ xs) ys = last_from-append (some x) xs ys

pub get_last?-last_from : (xs : List IndexedBlock) → get_last? xs ≡ last_from none xs
get_last?-last_from [] = refl
get_last?-last_from (x ∷ []) = refl
get_last?-last_from (x ∷ y ∷ ys) = get_last?-last_from (y ∷ ys)

pub last_from-nonempty :
    (o : Option IndexedBlock) (xs : List IndexedBlock)
    → 0 < length xs
    → last_from o xs ≡ last_from none xs
last_from-nonempty o [] h = absurd (omega arith)
last_from-nonempty o (x ∷ xs) h = refl

module _ (c : Codec) where
  -- The parent of the block is the tip, if there is one.
  abbrev pub Follows : Option IndexedBlock → IndexedBlock → Type 0
  Follows none b = Unit
  Follows (some t) b = block_hash c t ≡ b.header.prev_block

  -- Each block's parent is the block before it, and that of the first is the tip.
  abbrev pub LinkedFrom : Option IndexedBlock → List IndexedBlock → Type 0
  LinkedFrom o [] = Unit
  LinkedFrom o (x ∷ xs) = Follows o x × LinkedFrom (some x) xs

  -- Each block's parent is the block before it.
  abbrev pub Linked : List IndexedBlock → Type 0
  Linked xs = LinkedFrom none xs

  pub LinkedFrom-Linked :
      (o : Option IndexedBlock) (xs : List IndexedBlock) → LinkedFrom o xs → Linked xs
  LinkedFrom-Linked o [] l = tt
  LinkedFrom-Linked o (x ∷ xs) (f, l) = (tt, l)

  pub Linked-append :
      (o : Option IndexedBlock) (xs ys : List IndexedBlock)
      → LinkedFrom o xs
      → LinkedFrom (last_from o xs) ys
      → LinkedFrom o (xs ++ ys)
  Linked-append o [] ys l m = m
  Linked-append o (x ∷ xs) ys (f, l) m = (f, Linked-append (some x) xs ys l m)

  pub Linked-left :
      (o : Option IndexedBlock) (xs ys : List IndexedBlock)
      → LinkedFrom o (xs ++ ys)
      → LinkedFrom o xs
  Linked-left o [] ys l = tt
  Linked-left o (x ∷ xs) ys (f, l) = (f, Linked-left (some x) xs ys l)

  pub Linked-right :
      (o : Option IndexedBlock) (xs ys : List IndexedBlock)
      → LinkedFrom o (xs ++ ys)
      → LinkedFrom (last_from o xs) ys
  Linked-right o [] ys l = l
  Linked-right o (x ∷ xs) ys (f, l) = Linked-right (some x) xs ys l

  -- What the tests of the poller say.
  pub connects-Follows :
      (o : Option IndexedBlock) (b : IndexedBlock) → connects c o b ≡ true → Follows o b
  connects-Follows none b h = tt
  connects-Follows (some t) b h = bytes_eq→eq _ _ h

  pub Follows-connects :
      (o : Option IndexedBlock) (b : IndexedBlock) → Follows o b → connects c o b ≡ true
  Follows-connects none b h = refl
  Follows-connects (some t) b h = rw h (bytes_eq_refl b.header.prev_block)

  pub follows-LinkedFrom :
      (o : Option IndexedBlock) (bs : List IndexedBlock)
      → follows c o bs ≡ true
      → Linked bs
      → LinkedFrom o bs
  follows-LinkedFrom o [] h l = tt
  follows-LinkedFrom none (b ∷ bs) h l = l
  follows-LinkedFrom (some t) (b ∷ bs) h (f, l) = (bytes_eq→eq _ _ h, l)

  pub LinkedFrom-follows :
      (o : Option IndexedBlock) (bs : List IndexedBlock) → LinkedFrom o bs → follows c o bs ≡ true
  LinkedFrom-follows none bs l = refl
  LinkedFrom-follows (some t) [] l = refl
  LinkedFrom-follows (some t) (b ∷ bs) (f, l) = rw f (bytes_eq_refl b.header.prev_block)

  pub new_tip-last_from :
      (o : Option IndexedBlock) (bs : List IndexedBlock) → new_tip c o bs ≡ last_from o bs
  new_tip-last_from o [] = refl
  new_tip-last_from o (b ∷ bs) = get_last?-last_from (b ∷ bs)
