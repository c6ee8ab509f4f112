-- ===== src/Der/Oid.antt =====
-- src/tls/der.c: what `der_oid_is` compares.
use mega_irc.Common.{
  ℕ, zero, suc, ◌+◌, true, [], ◌∷◌, ◌≡◌, ◌↔◌, refl, arith, Str, ◌==◌, length, ap, sym, ◌∙◌,
}
use mega_irc.Der.{Cert, Elem, der_read, begins, der_oid_is}

begins_iff : (want buf : Str) → length buf ≡ length want → (begins want buf ≡ true) ↔ (buf ≡ want)
unfolding begins
begins_iff [] [] h = (λ q. refl, λ q. refl)
begins_iff [] (y ∷ buf) h = absurd (omega arith)
begins_iff (x ∷ want) [] h = absurd (omega arith)
begins_iff (x ∷ want) (y ∷ buf) h = ground (arith, begins_iff want buf)

length-der_read : (c : Cert) (off n : ℕ) → length (der_read c off n) ≡ n
length-der_read c off zero = refl
length-der_read c off (suc n) = omega (arith, length-der_read c (off + 1) n)

-- An OBJECT IDENTIFIER with just these bytes.
pub record IsOid (c : Cert) (o : Elem) (want : Str) : Type 0 where
  pub tag : o.tag ≡ 0x06
  pub len : o.len ≡ length want
  pub bytes : der_read c o.off (length want) ≡ want

pub der_oid_is_iff :
    (c : Cert) (o : Elem) (want : Str) → (der_oid_is c o want (length want) ≡ true) ↔ IsOid c o want
unfolding der_oid_is
der_oid_is_iff c o want =
    let b =
      begins_iff want (der_read c o.off (length want)) (length-der_read c o.off (length want)) in
    (
      λ q.
          let t : o.tag ≡ 0x06 = ground arith in
          let l : o.len ≡ length want = ground arith in
          let r : begins want (der_read c o.off o.len) ≡ true = ground arith in
          record {
            tag = t;
            len = l;
            bytes = b.0 (ap (λ n. begins want (der_read c o.off n)) (sym l) ∙ r);
          },
      λ i.
          let t : (o.tag == 0x06) ≡ true = rw (i.tag) refl in
          let l : (o.len == length want) ≡ true = ground (arith, i.len) in
          rw t (rw l (b.1 i.bytes)),
    )
