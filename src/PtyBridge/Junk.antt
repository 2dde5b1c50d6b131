-- ===== src/PtyBridge/Junk.antt =====
-- stripPtyJunk and isPasswordPrompt: server/cmd_pty_bridge.go. Texts are bytes: what is said of runes
-- holds for them in ASCII, and no byte of a longer rune is dropped.
use flit_el.Prelude.{
  ℕ, zero, suc, ◌+◌, ◌-◌, Bool, true, Option, none, some, [], ◌∷◌, Text, codes, map, nat_eq,
  has_prefix, leb, ◌==◌, ◌&&◌, ◌||◌, if◌then◌else◌,
}
use mathlib.Core.List.{reverse}

-- strings.Contains(s, part)
unfoldable pub has_part : Text → Text → Bool
has_part [] part = has_prefix [] part
has_part (c ∷ s) part = let rest = has_part s part in if has_prefix (c ∷ s) part then true else rest

abbrev is_between : ℕ → ℕ → ℕ → Bool
is_between a b c = leb a c && leb c b

abbrev is_letter : ℕ → Bool
is_letter c = is_between 65 90 c || is_between 97 122 c

-- [0-9;?]
abbrev is_param : ℕ → Bool
is_param c = is_between 48 57 c || ((c == 59) || (c == 63))

abbrev plus : ℕ → Option ℕ → Option ℕ
plus k none = none
plus k (some n) = some (n + k)

-- The length of [0-9;?]*[a-zA-Z] at the front.
csi_length : Text → Option ℕ
csi_length [] = none
csi_length (c ∷ s) =
    let rest = plus 1 (csi_length s) in
    if is_param c then rest else if is_letter c then some 1 else none

-- The length of [^\x07]*\x07 at the front.
osc_length : Text → Option ℕ
osc_length [] = none
osc_length (c ∷ s) = let rest = plus 1 (osc_length s) in if c == 7 then some 1 else rest

abbrev or_zero : Option ℕ → ℕ
or_zero none = 0
or_zero (some n) = n

escape_tail : ℕ → Text → Option ℕ
unfolding csi_length osc_length
escape_tail c s =
    if c == 91 then plus 2 (csi_length s) else if c == 93 then plus 2 (osc_length s) else none

-- The length of the escape sequence at the front, and 0 where there is none.
escape_length : Text → ℕ
unfolding escape_tail
escape_length [] = 0
escape_length (c ∷ []) = 0
escape_length (c ∷ d ∷ s) = if c == 27 then or_zero (escape_tail d s) else 0

drop_escapes : ℕ → Text → Text
unfolding escape_length
drop_escapes skip [] = []
drop_escapes (suc skip) (c ∷ s) = drop_escapes skip s
drop_escapes zero (c ∷ s) =
    let k = escape_length (c ∷ s) in
    let rest = drop_escapes (k - 1) s in if k == 0 then c ∷ rest else rest

-- What is printed, and tabs.
printable : Text → Text
printable [] = []
printable (c ∷ s) = let rest = printable s in if leb 32 c || (c == 9) then c ∷ rest else rest

trim_left : Text → Text
trim_left [] = []
trim_left (c ∷ s) = let rest = trim_left s in if (c == 32) || (c == 9) then rest else c ∷ s

-- stripPtyJunk
unfoldable pub strip_pty_junk : Text → Text
unfolding drop_escapes printable trim_left
strip_pty_junk s = reverse (trim_left (reverse (trim_left (printable (drop_escapes 0 s)))))

to_lower : Text → Text
to_lower s = map (λ c. if is_between 65 90 c then c + 32 else c) s

-- isPasswordPrompt
unfoldable pub is_password_prompt : Text → Bool
unfolding to_lower has_part
is_password_prompt s =
    let lower = to_lower s in
    has_part lower (codes "password")
    || (has_part lower (codes "passphrase")
        || (has_part lower (codes "passcode")
            || (has_part lower (codes "enter") && has_part lower (codes "key"))))
