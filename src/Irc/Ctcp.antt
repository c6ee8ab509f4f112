-- ===== src/Irc/Ctcp.antt =====
-- src/irc.c: `irc_ctcp`, the tag and the argument of a CTCP request.
use mega_irc.Common.{
  ℕ, zero, suc, ◌+◌, ◌-◌, ◌%◌, ◌^◌, ◌<◌, true, false, not, ◌||◌, Option, none, some, [], ◌∷◌, ◌++◌,
  ◌≡◌, ◌≢◌, ◌∙◌, inl, inr, refl, ap, arith, Str, All, ltb, ◌==◌, length, length-append, fill,
  fill-nil, fill_room, fill_full, Bool-cases, take,
}
use mega_irc.Irc.{
  Msg, CtcpResult, ctcp_tag, ctcp_finish, ctcp_body, ctcp_on, irc_ctcp, take_until, step_space,
}
use mega_irc.Irc.Words.{Avoids, take_until-append}

-- The delimiter of a CTCP message.
abbrev pub delimiter : ℕ
delimiter = 1

-- A tag holds neither a delimiter nor a space.
abbrev pub IsTag : Str → Type 0
IsTag t = All (λ c. (c ≢ delimiter) × (c ≢ b' ')) t

abbrev TagEnd : Str → Type 0
TagEnd [] = Unit {0}
TagEnd (c ∷ p) = (c == 1 || c == b' ') ≡ true

-- The buffer keeps as much of the tag as fits with its NUL.
ctcp_tag-fill :
    (tagcap : ℕ) (t tag p : Str)
    → tagcap < 2 ^ 8
    → length tag < tagcap
    → IsTag t
    → TagEnd p
    → ctcp_tag tagcap tag (t ++ p) ≡ (fill (tagcap - 1) tag t, p)
unfolding ctcp_tag
ctcp_tag-fill tagcap [] tag [] k l a e = rw fill-nil refl
ctcp_tag-fill tagcap [] tag (c ∷ p) k l a e = rw (fill-nil, e) refl
ctcp_tag-fill tagcap (c ∷ t) tag p k l a e =
    elim (Bool-cases (ltb ((length tag + 1) % 2 ^ 8) tagcap)) [
      | inl r ↦
          let ih =
            ctcp_tag-fill tagcap t (tag ++ c ∷ []) p k (ground (arith, length-append tag (c ∷ [])))
              a.1 e in
          let step = fill_room (tagcap - 1) tag c t (ground arith) in
          rw r (ground (arith, ih, step, a.0))
      | inr r ↦
          let ih = ctcp_tag-fill tagcap t tag p k l a.1 e in
          let full = fill_full (tagcap - 1) tag t (ground arith) in
          let full' = fill_full (tagcap - 1) tag (c ∷ t) (ground arith) in
          rw r (ground (arith, ih, full, full', a.0))
    ]

-- A request as it is sent: the tag, and the argument behind a space if there is one.
abbrev pub write_ctcp : Str → Option Str → Str
write_ctcp t none = delimiter ∷ (t ++ (delimiter ∷ []))
write_ctcp t (some a) = delimiter ∷ (t ++ (b' ' ∷ (a ++ (delimiter ∷ []))))

abbrev pub argument : Option Str → Str
argument none = []
argument (some a) = a

abbrev rest_of : Option Str → Str
rest_of none = delimiter ∷ []
rest_of (some a) = b' ' ∷ (a ++ (delimiter ∷ []))

rest_argument :
    (a : Option Str)
    → Avoids delimiter (argument a)
    → take_until delimiter (step_space (rest_of a)) ≡ argument a
rest_argument none h = unfold step_space take_until in refl
rest_argument (some a) h =
    unfold step_space in take_until-append delimiter a (delimiter ∷ []) h refl

rest-TagEnd : (a : Option Str) → TagEnd (rest_of a)
rest-TagEnd none = refl
rest-TagEnd (some a) = refl

ctcp_finish-take :
    (m : Msg) (n c : ℕ) (t p : Str)
    → 0 < n
    → ctcp_finish m (take n (c ∷ t), p) ≡ record {
      found = true;
      msg = record m { trailing = some (take_until 1 (step_space p)) };
      tag = some (take n (c ∷ t));
    }
unfolding ctcp_finish
ctcp_finish-take m zero c t p h = elim h [ ]
ctcp_finish-take m (suc n) c t p h = refl

ctcp_body-write :
    (m : Msg) (tagcap c : ℕ) (t : Str) (a : Option Str)
    → 1 < tagcap
    → tagcap < 2 ^ 8
    → IsTag (c ∷ t)
    → Avoids delimiter (argument a)
    → ctcp_body tagcap m (delimiter ∷ ((c ∷ t) ++ rest_of a)) ≡ record {
      found = true;
      msg = record m { trailing = some (argument a) };
      tag = some (take (tagcap - 1) (c ∷ t));
    }
unfolding ctcp_body
ctcp_body-write m tagcap c t a h k g v =
    let z : tagcap - 1 - 0 ≡ tagcap - 1 = omega arith in
    let read =
      ctcp_tag-fill tagcap (c ∷ t) [] (rest_of a) k (omega arith) g (rest-TagEnd a)
      ∙ ap (λ n. (take n (c ∷ t), rest_of a)) z in
    ground (
      arith,
      read,
      ctcp_finish-take m (tagcap - 1) c t (rest_of a) (omega arith),
      rest_argument a v,
    )

-- A request with a tag and perhaps an argument is recognised: the tag buffer holds as much of the
-- tag as fits with its NUL, and the trailing becomes the argument without the delimiters. The
-- buffer takes at least two and at most 255 bytes.
pub irc_ctcp-write_ctcp :
    (m : Msg) (tagcap : ℕ) (t : Str) (a : Option Str)
    → 1 < tagcap
    → tagcap < 2 ^ 8
    → t ≢ []
    → IsTag t
    → Avoids delimiter (argument a)
    → m.trailing ≡ some (write_ctcp t a)
    → irc_ctcp m tagcap ≡ record {
      found = true;
      msg = record m { trailing = some (argument a) };
      tag = some (take (tagcap - 1) t);
    }
unfolding irc_ctcp
irc_ctcp-write_ctcp m tagcap [] a h k n g v e = absurd (n refl)
irc_ctcp-write_ctcp m tagcap (c ∷ t) none h k n g v e =
    ap (ctcp_on tagcap m) e ∙ ctcp_body-write m tagcap c t none h k g v
irc_ctcp-write_ctcp m tagcap (c ∷ t) (some a) h k n g v e =
    ap (ctcp_on tagcap m) e ∙ ctcp_body-write m tagcap c t (some a) h k g v

-- The tag fits its buffer, with the NUL.
abbrev pub FitsIn : ℕ → Option Str → Type 0
FitsIn tagcap none = Unit {0}
FitsIn tagcap (some t) = length t < tagcap

-- What `irc_ctcp` guarantees of its result.
pub record IsSafe (m : Msg) (tagcap : ℕ) (r : CtcpResult) : Type 0 where
  pub fits : FitsIn tagcap r.tag
  pub refused : r.found ≡ false → r.msg ≡ m
  pub named : r.found ≡ true → (c : ℕ) × (t : Str) × (r.tag ≡ some (c ∷ t))

ctcp_tag-lt :
    (tagcap : ℕ) (tag p : Str)
    → tagcap < 2 ^ 8
    → length tag < tagcap
    → length (ctcp_tag tagcap tag p).0 < tagcap
unfolding ctcp_tag
ctcp_tag-lt tagcap tag [] k h = h
ctcp_tag-lt tagcap tag (c ∷ p) k h = elim (Bool-cases (c == 1 || c == b' ')) [
  | inl e ↦ rw e h
  | inr e ↦ rw e (elim (Bool-cases (ltb ((length tag + 1) % 2 ^ 8) tagcap)) [
    | inl r ↦
        rw r (ctcp_tag-lt tagcap (tag ++ c ∷ []) p k (ground (arith, length-append tag (c ∷ []))))
    | inr r ↦ rw r (ctcp_tag-lt tagcap tag p k h)
  ])
]

ctcp_finish-IsSafe :
    (m : Msg) (tagcap : ℕ) (r : Str × Str) → length r.0 < tagcap → IsSafe m tagcap (ctcp_finish m r)
unfolding ctcp_finish
ctcp_finish-IsSafe m tagcap ([], p) h = record { fits = h; refused = λ _. refl; named = λ e. cc }
ctcp_finish-IsSafe m tagcap (c ∷ t, p) h = record {
  fits = h;
  refused = λ e. cc;
  named = λ _. (c, t, refl);
}

ctcp_body-IsSafe :
    (m : Msg) (tagcap : ℕ) (p : Str) → tagcap < 2 ^ 8 → IsSafe m tagcap (ctcp_body tagcap m p)
unfolding ctcp_body
ctcp_body-IsSafe m tagcap [] k = record { fits = tt; refused = λ _. refl; named = λ e. cc }
ctcp_body-IsSafe m tagcap (c ∷ p) k = elim (Bool-cases (not (c == 1) || tagcap == 0)) [
  | inl e ↦ rw e (record { fits = tt; refused = λ _. refl; named = λ q. cc })
  | inr e ↦ rw e (ctcp_finish-IsSafe m tagcap _ (ctcp_tag-lt tagcap [] p k (ground arith)))
]

ctcp_on-IsSafe :
    (m : Msg) (tagcap : ℕ) (t : Option Str) → tagcap < 2 ^ 8 → IsSafe m tagcap (ctcp_on tagcap m t)
unfolding ctcp_on
ctcp_on-IsSafe m tagcap none k = record { fits = tt; refused = λ _. refl; named = λ e. cc }
ctcp_on-IsSafe m tagcap (some t) k = ctcp_body-IsSafe m tagcap t k

-- Whatever the trailing, for a buffer of at most 255 bytes: the tag never runs past its buffer, a refusal
-- leaves the message as it was, and what is recognised has a tag of at least one byte.
irc_ctcp-IsSafe : (m : Msg) (tagcap : ℕ) → tagcap < 2 ^ 8 → IsSafe m tagcap (irc_ctcp m tagcap)
unfolding irc_ctcp
irc_ctcp-IsSafe m tagcap k = ctcp_on-IsSafe m tagcap m.trailing k
