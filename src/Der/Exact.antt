-- ===== src/Der/Exact.antt =====
-- src/tls/der.c: `der_elem` accepts exactly the elements that lie in its range.
use mega_irc.Common.{
  ℕ, ◌+◌, ◌*◌, ◌%◌, ◌^◌, ◌≤◌, ◌<◌, false, some, ◌≡◌, ◌↔◌, ◌∙◌, inl, inr, arith, ltb, ◌==◌,
  Bool-cases,
}
use mega_irc.Der.{Cert, Elem, header, fits, spelled, der_elem}

-- The element that the bytes at an offset spell: a length below 128 in one byte, or behind 0x81 in
-- one more, or behind 0x82 in two.
pub data Spells (c : Cert) (at : ℕ) : Elem → Type 0 where
  short :
      {e : Elem}
      → c.byte (at + 1) < 0x80
      → e ≡ record { tag = c.byte (at + 0); off = at + 2; len = c.byte (at + 1) }
      → Spells c at e
  long1 :
      {e : Elem}
      → c.byte (at + 1) ≡ 0x81
      → e ≡ record { tag = c.byte (at + 0); off = at + 3; len = c.byte (at + 2) }
      → Spells c at e
  long2 :
      {e : Elem}
      → c.byte (at + 1) ≡ 0x82
      → e ≡ record {
        tag = c.byte (at + 0);
        off = at + 4;
        len = c.byte (at + 2) * 256 + c.byte (at + 3);
      }
      → Spells c at e

-- A byte is a byte.
abbrev pub IsBytes : Cert → Type 0
IsBytes c = (i : ℕ) → c.byte i < 2 ^ 8

-- The longest range whose offsets do not wrap at 16 bits.
abbrev pub range_max : ℕ
range_max = 65531

-- What lies in the range is read.
header_read : (c : Cert) (at end i : ℕ) → i < 4 → at + i < end → header c at end i ≡ c.byte (at + i)
unfolding header
header_read c at end i h k = ground arith

fits_iff :
    (end tag at n : ℕ) {e : Elem}
    → fits end tag at n ≡ some e
    → (e ≡ record { tag = tag; off = at; len = n }) × (at + n ≤ end)
unfolding fits
fits_iff end tag at n q = ground arith

fits_all :
    (end tag at n : ℕ)
    → at + n ≤ end
    → fits end tag at n ≡ some (record { tag = tag; off = at; len = n })
unfolding fits
fits_all end tag at n h = ground arith

spelled_sound :
    (c : Cert) (at end : ℕ) {e : Elem}
    → IsBytes c
    → end ≤ range_max
    → at + 2 ≤ end
    → spelled at end (header c at end) ≡ some e
    → Spells c at e × (e.off + e.len ≤ end)
unfolding spelled
spelled_sound c at end b h r q =
    let h0 = header_read c at end 0 (omega arith) (omega arith) in
    let h1 = header_read c at end 1 (omega arith) (omega arith) in
    elim (Bool-cases (ltb (header c at end 1) 0x80)) [
      | inl k ↦
          let f =
            fits_iff end (header c at end 0) ((at + 2) % 2 ^ 16) (header c at end 1) (rw k at q) in
          (short (ground arith) (f.0 ∙ ground arith), ground arith)
      | inr k ↦ elim (Bool-cases (header c at end 1 == 0x81)) [
        | inl l ↦
            let f =
              fits_iff end (header c at end 0) ((at + 3) % 2 ^ 16) (header c at end 2)
                (rw l at (rw k at q)) in
            let h2 = header_read c at end 2 (omega arith) (omega arith) in
            (long1 (ground arith) (f.0 ∙ ground arith), ground arith)
        | inr l ↦ elim (Bool-cases (header c at end 1 == 0x82)) [
          | inl m ↦
              let n = (header c at end 2 * 256 + header c at end 3) % 2 ^ 16 in
              let f =
                fits_iff end (header c at end 0) ((at + 4) % 2 ^ 16) n
                  (rw m at (rw l at (rw k at q))) in
              let h2 = header_read c at end 2 (omega arith) (omega arith) in
              let h3 = header_read c at end 3 (omega arith) (omega arith) in
              let b2 = b (at + 2) in
              let b3 = b (at + 3) in (long2 (ground arith) (f.0 ∙ ground arith), ground arith)
          | inr m ↦ absurd (no_form q k l m)
        ]
      ]
    ]
  where
    no_form :
        {e : Elem}
        → spelled at end (header c at end) ≡ some e
        → ltb (header c at end 1) 0x80 ≡ false
        → (header c at end 1 == 0x81) ≡ false
        → (header c at end 1 == 0x82) ≡ false
        → ⊥
    no_form q k l m = ground arith

spelled_complete :
    (c : Cert) (at end : ℕ) {e : Elem}
    → IsBytes c
    → end ≤ range_max
    → Spells c at e
    → e.off + e.len ≤ end
    → spelled at end (header c at end) ≡ some e
unfolding spelled
spelled_complete c at end b h (short k q) l =
    ground (arith, header_read c at end 0, header_read c at end 1)
spelled_complete c at end b h (long1 k q) l =
    ground (arith, header_read c at end 0, header_read c at end 1, header_read c at end 2)
spelled_complete c at end b h (long2 k q) l =
    let b2 = b (at + 2) in
    let b3 = b (at + 3) in
    ground (
      arith,
      header_read c at end 0,
      header_read c at end 1,
      header_read c at end 2,
      header_read c at end 3,
    )

Spells-lt : {c : Cert} {at : ℕ} {e : Elem} → Spells c at e → at + 2 ≤ e.off
Spells-lt (short k q) = ground arith
Spells-lt (long1 k q) = ground arith
Spells-lt (long2 k q) = ground arith

in_range :
    (c : Cert) (at end : ℕ) {e : Elem}
    → der_elem c at end ≡ some e
    → (at + 2 ≤ end) × (spelled at end (header c at end) ≡ some e)
unfolding der_elem
in_range c at end q = ground arith

der_elem-spelled :
    (c : Cert) (at end : ℕ) → at + 2 ≤ end → der_elem c at end ≡ spelled at end (header c at end)
unfolding der_elem
der_elem-spelled c at end h = ground arith

-- In a range that ends below 65532, `der_elem` yields an element exactly if the bytes at the offset
-- spell it and its content ends inside the range. What the header's buffer held before plays no part.
pub der_elem_iff :
    (c : Cert) (at end : ℕ) (e : Elem)
    → IsBytes c
    → end ≤ range_max
    → (der_elem c at end ≡ some e) ↔ (Spells c at e × (e.off + e.len ≤ end))
der_elem_iff c at end e b h = (
  λ q. let (r, s) = in_range c at end q in spelled_sound c at end b h r s,
  λ p.
      let r = Spells-lt p.0 in
      der_elem-spelled c at end (omega arith) ∙ spelled_complete c at end b h p.0 p.1,
)

-- An element's content begins behind its header and ends inside the range: every walk from element
-- to element moves on.
pub der_elem_bounds :
    (c : Cert) (at end : ℕ) {e : Elem}
    → IsBytes c
    → end ≤ range_max
    → der_elem c at end ≡ some e
    → (at + 2 ≤ e.off) × (e.off + e.len ≤ end)
der_elem_bounds c at end {e} b h q =
    let (s, l) = (der_elem_iff c at end e b h).0 q in (Spells-lt s, l)
