-- ===== src/Drivers/Keyboard/Chars.antt =====
-- The characters of the keys.
use potat_os.Prelude.{
  ℕ, ◌-◌, ◌<◌, ◌≡◌, refl, ap, Bool, true, false, ◌==◌, if◌then◌else◌, every, every_at, arith, none,
  some, get_elem?, Run, ok, fault, List,
}
use potat_os.Drivers.Keyboard.{is_lower, key_ch}
use potat_os.Drivers.Keyboard.Tables.{character_table, shifted_character_table}

abbrev pub entry : List ℕ → ℕ → ℕ
entry table scancode = elim (get_elem? table scancode) [ none ↦ 0 | some c ↦ c ]

-- What a key types: a letter is a capital when exactly one of shift and caps lock is on, and any
-- other key goes by the shift key alone.
abbrev pub typed : Bool → Bool → ℕ → ℕ
typed shifted caps scancode =
    let plain = entry character_table scancode in
    if is_lower plain
    then if shifted
      then (if caps then plain else plain - 32)
      else (if caps then plain - 32 else plain)
    else if shifted
    then entry shifted_character_table scancode
    else plain

same : Run ℕ → ℕ → Bool
same (ok a) b = a == b
same fault b = false
same _ b = false

same_lem : (r : Run ℕ) (b : ℕ) → same r b ≡ true → r ≡ ok b
unfolding same
same_lem (ok a) b h = ap ok (ground (arith, h))
same_lem fault b h = ground (arith, h)
same_lem Run.halted b h = ground (arith, h)
same_lem Run.out_of_fuel b h = ground (arith, h)

table :
    (shifted caps : Bool)
    → every 128 (λ scancode. same (key_ch shifted caps scancode) (typed shifted caps scancode))
      ≡ true
unfolding same key_ch
table true true = refl
table true false = refl
table false true = refl
table false false = refl

-- For every scan code of a press and every state of the shift and caps lock keys, the lookup of the
-- character stays inside the tables and gives what the key types: a letter is a capital when exactly
-- one of shift and caps lock is on, and any other key goes by the shift key alone.
pub key_ch-typed :
    (shifted caps : Bool) (scancode : ℕ)
    → scancode < 128
    → key_ch shifted caps scancode ≡ ok (typed shifted caps scancode)
key_ch-typed shifted caps scancode lt =
    same_lem (key_ch shifted caps scancode) (typed shifted caps scancode) (
      every_at (λ n. same (key_ch shifted caps n) (typed shifted caps n)) 128 scancode lt
        (table shifted caps))
