-- ===== src/Pgdb/Dump/Guards.antt =====
-- cmd/pgdb/dump.go: what the guards validHeader and heapItem let through.
use build_postgres.Prelude.{
  ℕ, ◌+◌, ◌*◌, ◌≤◌, ◌≡◌, ◌↔◌, ◌⊎◌, inl, inr, true, ◌||◌, none, some, arith, ltb, ◌==◌, Bool-cases,
  length, drop, length-take, length-drop,
}
use build_postgres.Prelude.Text.{Bytes}
use build_postgres.Page.{
  PageReader, PageLaws, ItemId, page_size, header_size, line_pointer_size, item_normal, slice,
}
use build_postgres.Tuple.{fixed_header_size}
use build_postgres.Pgdb.Dump.{valid_header, heap_item}

-- A line pointer to a whole tuple header inside the page.
pub record PointsAtHeader (id : ItemId) : Type 0 where
  pub behind_header : header_size ≤ id.off
  pub inside : id.off + id.len ≤ page_size
  pub normal : id.flags ≡ item_normal
  pub whole : fixed_header_size ≤ id.len

pub length-slice :
    (p : Bytes) (id : ItemId) → id.off + id.len ≤ length p → length (slice p id) ≡ id.len
length-slice p id h = omega (arith, length-take id.len (drop id.off p), length-drop id.off p)

module _ (r : PageReader) (laws : PageLaws r) where
  -- validHeader holds exactly of a page whose header offsets lie in order inside the page, with a
  -- line pointer array of NumItems() whole entries between the header and lower.
  pub valid_header_iff :
      (p : Bytes)
      → (valid_header r p ≡ true) ↔ (
          (header_size + line_pointer_size * r.num_items p ≡ r.lower p)
          × (r.lower p ≤ r.upper p)
          × (r.upper p ≤ r.special p)
          × (r.special p ≤ page_size))
  unfolding valid_header
  valid_header_iff p =
      (λ h. ground (arith, laws.num_items_lem p), λ h. ground (arith, laws.num_items_lem p))

  -- On a page of full size and a line pointer that ItemID returned, heapItem does not panic, whatever
  -- the line pointer holds: it returns the bytes that the line pointer shows if these are a whole
  -- tuple header inside the page and the line pointer is normal, and false otherwise.
  pub heap_item_lem :
      (p : Bytes) (n : ℕ) (id : ItemId)
      → length p ≡ page_size
      → r.item_id p n ≡ some id
      → (PointsAtHeader id × (heap_item r p n id ≡ some (some (slice p id))))
        ⊎ ((¬ PointsAtHeader id) × (heap_item r p n id ≡ some none))
  unfolding heap_item
  heap_item_lem p n id size h =
      elim (Bool-cases (ltb id.off header_size || ltb page_size (id.off + id.len))) [
        | inl out ↦ inr (λ w. ground arith, rw out)
        | inr inn ↦ elim (Bool-cases (id.flags == item_normal)) [
          | inr f ↦
              inr (λ w. ground arith, rw inn (rw (laws.get_item_unused p n id h (ground arith))))
          | inl f ↦
              let len : length (slice p id) ≡ id.len = length-slice p id (ground arith) in
              let got = laws.get_item_normal p n id h (ground arith) (ground arith) in
              elim (Bool-cases (ltb (length (slice p id)) fixed_header_size)) [
                | inl short ↦ inr (λ w. ground arith, rw inn (rw got (rw short)))
                | inr long ↦ inl (ground arith, rw inn (rw got (rw long)))
              ]
        ]
      ]
