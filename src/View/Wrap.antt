-- ===== src/View/Wrap.antt =====
-- src/m65/view.c: the rows of a wrapped line hold its text, whole and in its order.
use mega_irc.Common.{
  ℕ, zero, suc, ◌+◌, ◌-◌, ◌≤◌, ◌<◌, ◌≡◌, ◌∙◌, some, List, [], ◌∷◌, ◌++◌, refl, sym, ap, arith, min,
  Str, All, length, take, drop, map, replicate, length-append, length-take, length-replicate,
  length-map, length-drop, append_assoc, append-nil, take-append-drop,
}
use native.Mathlib.Decide.{dec_lt}
use mega_irc.Screen.{m65_ascii_to_screencode}
use mega_irc.View.{row_width, padded, more_rows, line_rows}

-- The text in the columns of a row behind the first, and of all rows of a line.
abbrev pub tail_text : List Str → Str
tail_text [] = []
tail_text (r ∷ rs) = take 77 (drop 2 r) ++ tail_text rs

abbrev pub rows_text : List Str → Str
rows_text [] = []
rows_text (r ∷ rs) = take 79 r ++ tail_text rs

abbrev pub blanks : ℕ → Str
blanks n = replicate n 0x20

abbrev pub screen_text : Str → Str
screen_text s = map m65_ascii_to_screencode s

take-blanks : (w n : ℕ) → w ≤ n → take w (blanks n) ≡ blanks w
take-blanks zero n h = refl
take-blanks (suc w) zero h = absurd (omega arith)
take-blanks (suc w) (suc n) h = ap (◌∷◌ 0x20) (take-blanks w n (omega arith))

take_piece :
    (m : Str) (w n : ℕ)
    → length m ≤ w
    → w ≤ length m + n
    → take w (m ++ blanks n) ≡ m ++ blanks (w - length m)
take_piece [] w n h k =
    let e : w - length {A = ℕ} [] ≡ w = omega arith in rw e (take-blanks w n (omega arith))
take_piece (x ∷ m) zero n h k = absurd (omega arith)
take_piece (x ∷ m) (suc w) n h k =
    let e : suc w - length (x ∷ m) ≡ w - length m = omega arith in
    rw e (ap (◌∷◌ x) (take_piece m w n (omega arith) (omega arith)))

map-append : (s t : Str) → screen_text (s ++ t) ≡ screen_text s ++ screen_text t
map-append [] t = refl
map-append (c ∷ s) t = ap (◌∷◌ (m65_ascii_to_screencode c)) (map-append s t)

blanks-add : (m n : ℕ) → blanks m ++ blanks n ≡ blanks (m + n)
blanks-add zero n = let e : 0 + n ≡ n = omega arith in rw e refl
blanks-add (suc m) n =
    let e : suc m + n ≡ suc (m + n) = omega arith in rw e (ap (◌∷◌ 0x20) (blanks-add m n))

drop_all : (w : ℕ) (t : Str) → length t ≤ w → drop w t ≡ []
drop_all zero [] h = refl
drop_all zero (c ∷ t) h = absurd (omega arith)
drop_all (suc w) [] h = refl
drop_all (suc w) (c ∷ t) h = drop_all w t (omega arith)

cut_screen_text :
    (w : ℕ) (t : Str) → screen_text (take w t) ++ screen_text (drop w t) ≡ screen_text t
cut_screen_text w t = sym (map-append (take w t) (drop w t)) ∙ ap screen_text (take-append-drop w t)

-- A piece of `w` columns, blanks behind it only where the text ends, and then what comes of the rest.
join_piece :
    (w : ℕ) (t rest : Str) (k : ℕ)
    → rest ≡ screen_text (drop w t) ++ blanks k
    → (j : ℕ) × ((screen_text (take w t) ++ blanks (w - length t)) ++ rest
        ≡ screen_text t ++ blanks j)
join_piece w t rest k h = elim (dec_lt (length t) w) [
  | no n ↦
      let z : w - length t ≡ 0 = omega arith in
      (
        k,
        rw z (
            ap (λ x. x ++ rest) (append-nil (screen_text (take w t)))
            ∙ ap (λ x. screen_text (take w t) ++ x) h
            ∙ sym (append_assoc (screen_text (take w t)) (screen_text (drop w t)) (blanks k))
            ∙ ap (λ x. x ++ blanks k) (cut_screen_text w t)),
      )
  | yes y ↦
      let d : drop w t ≡ [] = drop_all w t (omega arith) in
      let e : rest ≡ blanks k = h ∙ ap (λ x. screen_text x ++ blanks k) d in
      let a : screen_text (take w t) ≡ screen_text t =
        sym (append-nil (screen_text (take w t)))
        ∙ ap (λ x. screen_text (take w t) ++ screen_text x) (sym d)
        ∙ cut_screen_text w t in
      (
        w - length t + k,
        ap (λ x. (screen_text (take w t) ++ blanks (w - length t)) ++ x) e
            ∙ append_assoc (screen_text (take w t)) (blanks (w - length t)) (blanks k)
            ∙ ap (λ x. screen_text (take w t) ++ x) (blanks-add (w - length t) k)
            ∙ ap (λ x. x ++ blanks (w - length t + k)) a,
      )
]

-- What the row of a piece holds in its columns.
row_piece :
    (w n : ℕ) (t : Str)
    → w ≤ n
    → take w (screen_text (take w t) ++ blanks (n - length (screen_text (take w t))))
      ≡ screen_text (take w t) ++ blanks (w - length t)
row_piece w n t h =
    let l : length (screen_text (take w t)) ≡ min w (length t) =
      length-map (take w t) m65_ascii_to_screencode ∙ length-take w t in
    let e : w - length (screen_text (take w t)) ≡ w - length t = omega (arith, l) in
    take_piece (screen_text (take w t)) w (n - length (screen_text (take w t))) (omega (arith, l))
      (omega (arith, l))
    ∙ ap (λ k. screen_text (take w t) ++ blanks k) e

length-padded : (r : Str) → length r ≤ row_width → length (padded r) ≡ row_width
unfolding padded
length-padded r h = omega (
  arith,
  length-append r (blanks (row_width - length r)),
  length-replicate {A = ℕ} (row_width - length r) 0x20,
)

first_piece :
    (t : Str)
    → take 79 (padded (screen_text (take 79 t))) ≡ screen_text (take 79 t) ++ blanks (79 - length t)
unfolding padded
first_piece t = row_piece 79 row_width t (omega arith)

tail_piece :
    (t : Str)
    → take 77 (drop 2 (padded (0x20 ∷ 0x20 ∷ screen_text (take 77 t))))
      ≡ screen_text (take 77 t) ++ blanks (77 - length t)
unfolding padded
tail_piece t =
    let m : Str = screen_text (take 77 t) in
    let e : row_width - length (0x20 ∷ 0x20 ∷ m) ≡ 78 - length m = omega arith in
    ap (λ k. take 77 (m ++ blanks k)) e ∙ row_piece 77 78 t (omega arith)

abbrev pub IsRow : Str → Type 0
IsRow r = length r ≡ row_width

more_rows_lem :
    (f : ℕ) (t : Str)
    → length t < f
    → (rows : List Str) × (k : ℕ) × (more_rows f t ≡ some rows)
      × (tail_text rows ≡ screen_text t ++ blanks k)
      × All IsRow rows
unfolding more_rows
more_rows_lem zero t h = absurd (omega arith)
more_rows_lem (suc f) [] h = ([], 0, refl, refl, tt)
more_rows_lem (suc f) (c ∷ s) h =
    let t : Str = c ∷ s in
    let (rows, k, q, text, width) = more_rows_lem f (drop 77 t) (omega (arith, length-drop 77 t)) in
    let (j, e) = join_piece 77 t (tail_text rows) k text in
    let l : length (screen_text (take 77 t)) ≤ 77 =
      omega (arith, length-map (take 77 t) m65_ascii_to_screencode, length-take 77 t) in
    (
      padded (0x20 ∷ 0x20 ∷ screen_text (take 77 t)) ∷ rows,
      j,
      rw q refl,
      ap (λ x. x ++ tail_text rows) (tail_piece t) ∙ e,
      (length-padded (0x20 ∷ 0x20 ∷ screen_text (take 77 t)) (omega arith), width),
    )

-- The loop over a line ends for every text. Each row is as wide as the screen, and the first 79
-- columns of the first row and the columns 3 to 79 of the others, one behind another, are the screen
-- codes of the whole text with only blanks behind them.
pub line_rows_lem :
    (t : Str)
    → (rows : List Str) × (k : ℕ) × (line_rows t ≡ some rows)
      × (rows_text rows ≡ screen_text t ++ blanks k)
      × All IsRow rows
unfolding line_rows
line_rows_lem t =
    let (rows, k, q, text, width) =
      more_rows_lem (suc (length t)) (drop 79 t) (omega (arith, length-drop 79 t)) in
    let (j, e) = join_piece 79 t (tail_text rows) k text in
    let l : length (screen_text (take 79 t)) ≤ 79 =
      omega (arith, length-map (take 79 t) m65_ascii_to_screencode, length-take 79 t) in
    (
      padded (screen_text (take 79 t)) ∷ rows,
      j,
      rw q refl,
      ap (λ x. x ++ tail_text rows) (first_piece t) ∙ e,
      (length-padded (screen_text (take 79 t)) (omega arith), width),
    )
