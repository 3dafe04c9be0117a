-- ===== src/Identity/Fields.antt =====
-- What `parse_stat` and `read_process` of native/forcola_shim/src/identity.rs answer.
use forcola.Prelude.{
  ℕ, ◌<◌, ◌≡◌, ◌≢◌, refl, ap, ◌∙◌, List, [], ◌∷◌, ◌++◌, false, Option, none, some, arith,
}
use mathlib.Core.List.{append_assoc, append-nil}
use forcola.Identity.Stat.{
  behind_last, is_whitespace, word, split_from, split_whitespace, parse_fields, parse_stat,
}

-- A character of a field: ASCII, no whitespace, and no `)`.
abbrev pub IsPlain : List ℕ → Type 0
IsPlain [] = Unit {0}
IsPlain (c ∷ cs) = (is_whitespace c ≡ false) × (c ≢ 41) × (c < 128) × IsPlain cs

abbrev pub AllWords : List (List ℕ) → Type 0
AllWords [] = Unit {0}
AllWords (w ∷ ws) = (w ≢ []) × IsPlain w × AllWords ws

-- Fields as the kernel prints them: a space before each, and a newline at the end.
abbrev pub joined : List (List ℕ) → List ℕ
joined [] = 10 ∷ []
joined (w ∷ ws) = 32 ∷ (w ++ joined ws)

abbrev pub IsAscii : List ℕ → Type 0
IsAscii [] = Unit {0}
IsAscii (c ∷ cs) = (c < 128) × IsAscii cs

word-IsAscii : (w cs : List ℕ) → IsPlain w → IsAscii cs → IsAscii (w ++ cs)
word-IsAscii [] cs p a = a
word-IsAscii (c ∷ w) cs (_, _, l, p) a = (l, word-IsAscii w cs p a)

joined-IsAscii : (ws : List (List ℕ)) → AllWords ws → IsAscii (joined ws)
joined-IsAscii [] p = (omega arith, tt)
joined-IsAscii (w ∷ ws) (_, p, ps) =
    (omega arith, word-IsAscii w (joined ws) p (joined-IsAscii ws ps))

behind_last_word :
    (w cs : List ℕ) → IsPlain w → behind_last cs ≡ none → behind_last (w ++ cs) ≡ none
unfolding behind_last
behind_last_word [] cs p e = e
behind_last_word (c ∷ w) cs (_, n, _, p) e =
    rw (behind_last_word w cs p e, behind_last) (ground arith)

behind_last-joined : (ws : List (List ℕ)) → AllWords ws → behind_last (joined ws) ≡ none
unfolding behind_last
behind_last-joined [] p = refl
behind_last-joined (w ∷ ws) (_, p, ps) =
    rw (behind_last_word w (joined ws) p (behind_last-joined ws ps), behind_last) refl

behind_last-append :
    (pre suffix : List ℕ)
    → behind_last suffix ≡ none
    → behind_last (pre ++ (41 ∷ suffix)) ≡ some suffix
unfolding behind_last
behind_last-append [] suffix e = rw (e, behind_last) refl
behind_last-append (b ∷ pre) suffix e = rw (behind_last-append pre suffix e, behind_last) refl

split_from-word :
    (acc w : List ℕ) (ws : List (List ℕ))
    → IsPlain w
    → split_from acc (w ++ joined ws) ≡ word (acc ++ w) (split_from [] (joined ws))
unfolding split_from
split_from-word acc [] [] p = rw (append-nil acc) refl
split_from-word acc [] (v ∷ vs) p = rw (append-nil acc) refl
split_from-word acc (c ∷ w) ws (n, _, _, p) =
    rw (n, split_from)
      (split_from-word (acc ++ (c ∷ [])) w ws p
        ∙ ap (λ a. word a (split_from [] (joined ws))) (append_assoc acc (c ∷ []) w))

word-cons : (w : List ℕ) (ws : List (List ℕ)) → w ≢ [] → word w ws ≡ w ∷ ws
word-cons [] ws n = absurd (n refl)
word-cons (c ∷ w) ws n = refl

split_from-joined : (ws : List (List ℕ)) → AllWords ws → split_from [] (joined ws) ≡ ws
unfolding split_from
split_from-joined [] p = refl
split_from-joined (w ∷ ws) (n, p, ps) =
    split_from-word [] w ws p ∙ ap (λ l. word w l) (split_from-joined ws ps) ∙ word-cons w ws n

-- Whatever bytes stand before the last `)`, the command's among them, `parse_stat` reads the fields that the
-- kernel printed behind it, if each is a word of ASCII characters without whitespace and `)`, and ASCII bytes are decoded as
-- themselves.
pub parse_stat-parse_fields :
    (decode : List ℕ → Option (List ℕ))
    → ((cs : List ℕ) → IsAscii cs → decode cs ≡ some cs)
    → (pre : List ℕ) (words : List (List ℕ)) → AllWords words
    → parse_stat decode (pre ++ (41 ∷ joined words)) ≡ parse_fields words
unfolding parse_stat split_whitespace
parse_stat-parse_fields decode ascii pre words p =
    rw (behind_last-append pre (joined words) (behind_last-joined words p)) (
      rw (ascii (joined words) (joined-IsAscii words p))
        (ap parse_fields (split_from-joined words p)))
