-- ===== src/Input/Tests.antt =====
-- src/ircc.c: the line that is typed, at concrete keys.
use mega_irc.Common.{
  false, ℕ, get_or, true, List, map, zero, suc, ◌%◌, ◌^◌, some, [], ◌∷◌, ◌++◌, ◌≡◌, refl, sym,
  subst, some_inj, arith, ap, ◌∙◌, length-replicate, Str, codes, get_elem?, replicate,
}
use mega_irc.Input.{Input, key_up, key_left, key_right, key_del, typed, press, enter, Uptime}
use mega_irc.Ui.Prompt.{IsTyped, Ended}
use Prim.Native.Nat.{bit_or, ◌<◌}
use mega_irc.Irc.Words.{Avoids}
use mega_irc.Irc.{take_until}
use mega_irc.Screen.{m65_ascii_to_screencode}
use mega_irc.Ui.{ui_cat, ui_cat_num}
use mega_irc.View.{Views}
use mega_irc.Input.Counts.{draw_counts}
use mega_irc.Input.Cursor.{draw_input, draw_input-Shows}
use mega_irc.Input.Secret.{read_secret, mask, read_secret-IsHidden}
use mega_irc.Input.Edit.{Shows, laid_out, press_all, edit_all, press_all-edit_all}
use mega_irc.Input.History.{text_of, Holds, Remembers, Reads, enter-Remembers, key_up-Remembers}

abbrev fresh : Input
fresh = laid_out [] [] (replicate 200 0) (λ v. []) 0 0

press_all-edit_all_example :
    Shows
      (press_all (typed b'a' ∷ typed b'c' ∷ key_left ∷ typed b'b' ∷ key_right ∷ key_del ∷ []) fresh)
      (edit_all
        (typed b'a' ∷ typed b'c' ∷ key_left ∷ typed b'b' ∷ key_right ∷ key_del ∷ [])
        ([], []))
press_all-edit_all_example =
    press_all-edit_all (typed b'a' ∷ typed b'c' ∷ key_left ∷ typed b'b' ∷ key_right ∷ key_del ∷ [])
      fresh ([], []) (refl, (refl, (refl, (refl, (refl, (refl, tt))))))
      (replicate 200 0, refl, omega arith)

abbrev hi : Input
hi = laid_out (codes "h") (codes "i") (replicate 198 0) (λ v. []) 0 0

fresh-Remembers : Remembers hi []
fresh-Remembers = record { counted = refl; recent = λ b t h g. cc }

hi-Avoids : Avoids 0 (codes "hi")
hi-Avoids = ground arith

enter-Remembers_example :
    Remembers (enter hi) (codes "hi" ∷ [])
    × ((enter hi).hist_at ≡ 0)
    × ((enter hi).input_len ≡ 0)
    × ((enter hi).input_pos ≡ 0)
    × (text_of (enter hi) ≡ [])
enter-Remembers_example =
    enter-Remembers hi [] (codes "h") (codes "i") fresh-Remembers
      (replicate 198 0, refl, omega arith) hi-Avoids (omega arith)

-- Every slot holds the same line.
abbrev same_lines : ℕ → Input
same_lines count = laid_out [] [] (replicate 200 0) (λ v. codes "hi" ++ 0 ∷ replicate 198 0) count 0

of_replicate : (n b : ℕ) (t u : Str) → get_elem? (replicate n t) b ≡ some u → t ≡ u
of_replicate zero b t u g = cc
of_replicate (suc n) zero t u g = some_inj g
of_replicate (suc n) (suc b) t u g = of_replicate n b t u g

hi-Holds : Holds (codes "hi" ++ 0 ∷ replicate 198 0) (codes "hi")
hi-Holds = (replicate 198 0, refl, omega arith, hi-Avoids)

same_lines-Remembers :
    (n count : ℕ) → count ≡ n % 2 ^ 8 → Remembers (same_lines count) (replicate n (codes "hi"))
same_lines-Remembers n count e = record {
  counted = e ∙ ap (λ k. k % 2 ^ 8) (sym (length-replicate n (codes "hi")));
  recent = λ b t h g.
      subst (Holds (codes "hi" ++ 0 ∷ replicate 198 0)) (of_replicate n b (codes "hi") t g)
        hi-Holds;
}

key_up-Remembers_example :
    Reads (press key_up (same_lines 3)) (codes "hi") × ((press key_up (same_lines 3)).hist_at ≡ 1)
key_up-Remembers_example =
    key_up-Remembers (same_lines 3) (replicate 3 (codes "hi")) (codes "hi")
      (same_lines-Remembers 3 3 refl) (omega arith) (omega arith) refl

abbrev late : Uptime
late = record { up_h = 255; up_m = 59; up_s = 58 }

-- A letter too much for three, one that is taken back, and RETURN.
abbrev secret_keys : List ℕ
secret_keys = b'a' ∷ b'b' ∷ b'c' ∷ b'd' ∷ 0x14 ∷ b'e' ∷ 0x0d ∷ []

read_secret_abe : (read_secret (codes "Password: ") 3 secret_keys).1 ≡ some (true, codes "abe")
unfolding read_secret
read_secret_abe = refl

read_secret-IsHidden_example :
    ((read_secret (codes "Password: ") 3 (map mask secret_keys)).0
      ≡ (read_secret (codes "Password: ") 3 secret_keys).0)
    × Ended (IsTyped 3) (read_secret (codes "Password: ") 3 secret_keys).1
read_secret-IsHidden_example = read_secret-IsHidden (codes "Password: ") 3 secret_keys

-- The cursor in the middle of a short line.
draw_input_hi : draw_input (codes "hi" ++ 0 ∷ []) 1 ≡ (codes "> hi", some (3, 0x89))
unfolding draw_input m65_ascii_to_screencode take_until
draw_input_hi = refl

draw_input-Shows_example :
    (col : ℕ) × (col < 80)
    × (get_or (draw_input (codes "hi" ++ 0 ∷ []) 1).0 col b' ' ≡ b'i')
    × ((draw_input (codes "hi" ++ 0 ∷ []) 1).1
        ≡ some (col, bit_or (m65_ascii_to_screencode b'i') 0x80))
draw_input-Shows_example = draw_input-Shows (codes "hi") [] 1 hi-Avoids (omega arith)

abbrev scrolled_views : Views
scrolled_views = record {
  views = λ v. record { name = codes "#c64"; back = 23; used = true; unread = false };
  view_active = 1;
  order = 0 ∷ 1 ∷ [];
  log = record {
    total = λ v. 0;
    have = λ v. 0;
    attic = λ i. record { codes = []; nick_at = 0; nick_len = 0; nick_col = 0 };
    log_nick_at = 0;
    log_nick_len = 0;
    log_nick_col = 0;
  };
}

abbrev an_hour : Uptime
an_hour = record { up_h = 1; up_m = 2; up_s = 33 }

counts_shown :
    draw_counts scrolled_views an_hour 120 7 ≡ codes "#c64  up 1:02:33  rx 120  tx 7  back 23"
unfolding draw_counts ui_cat ui_cat_num
counts_shown = refl
