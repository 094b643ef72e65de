-- ===== src/VirtualDevice/Button.antt =====
-- client/packages/vita_virtual_device/src/virtual_button.rs, and `HashSet<Button>`.
use vita_oxi_pad.Base.{
  ℕ, ◌+◌, ◌<◌, ◌≡◌, ◌↔◌, refl, sym, ap, ◌∙◌, Bool, true, false, ◌&&◌, ◌||◌, not, List, [], ◌∷◌,
  arith, ◌==◌, ==_iff, if◌then◌else◌,
}

pub data Button : Type 0 where
  thumb_right thumb_left options share trigger_right trigger_left shoulder_right shoulder_left
        triangle circle cross square ps_button :
      Button

pub data DpadDirection : Type 0 where
  north north_east east south_east south south_west west north_west none : DpadDirection

-- The derived order of the variants, which decides equality.
abbrev pub discriminant : Button → ℕ
discriminant thumb_right = 0
discriminant thumb_left = 1
discriminant options = 2
discriminant share = 3
discriminant trigger_right = 4
discriminant trigger_left = 5
discriminant shoulder_right = 6
discriminant shoulder_left = 7
discriminant triangle = 8
discriminant circle = 9
discriminant cross = 10
discriminant square = 11
discriminant ps_button = 12

-- The derived `==`.
abbrev pub eq_button : Button → Button → Bool
eq_button a b = discriminant a == discriminant b

of_discriminant : ℕ → Button
of_discriminant n =
    if n == 0
    then thumb_right
    else if n == 1
    then thumb_left
    else if n == 2
    then options
    else if n == 3
    then share
    else if n == 4
    then trigger_right
    else if n == 5
    then trigger_left
    else if n == 6
    then shoulder_right
    else if n == 7
    then shoulder_left
    else if n == 8
    then triangle
    else if n == 9
    then circle
    else if n == 10
    then cross
    else if n == 11
    then square
    else ps_button

of_discriminant-discriminant : (b : Button) → of_discriminant (discriminant b) ≡ b
unfolding of_discriminant
of_discriminant-discriminant thumb_right = refl
of_discriminant-discriminant _ = refl

discriminant-injective : (a b : Button) → discriminant a ≡ discriminant b → a ≡ b
discriminant-injective a b h =
    sym (of_discriminant-discriminant a) ∙ ap of_discriminant h ∙ of_discriminant-discriminant b

pub eq_button_iff : (a b : Button) → (eq_button a b ≡ true) ↔ (a ≡ b)
eq_button_iff a b =
    (λ h. discriminant-injective a b ((==_iff _ _).0 h), λ h. (==_iff _ _).1 (ap discriminant h))

pub discriminant-lt : (b : Button) → discriminant b < 13
discriminant-lt thumb_right = omega arith
discriminant-lt _ = omega arith

-- A `HashSet<Button>` by its membership test.
abbrev pub ButtonSet : Type 0
ButtonSet = Button → Bool

abbrev pub empty_set : ButtonSet
empty_set b = false

-- `set.insert(b)`
abbrev pub insert : Button → ButtonSet → ButtonSet
insert b set x = eq_button b x || set x

-- `buttons.iter().cloned().collect()`
abbrev pub from_list : List Button → ButtonSet
from_list [] = empty_set
from_list (b ∷ bs) = insert b (from_list bs)

-- The members of `difference`.
abbrev pub difference : ButtonSet → ButtonSet → ButtonSet
difference s t x = s x && not (t x)

-- How often a button occurs in a list.
abbrev pub count : Button → List Button → ℕ
count b [] = 0
count b (x ∷ xs) = (if eq_button x b then 1 else 0) + count b xs

-- `HashSet` iterates in an order that it does not specify, over each member once.
pub record Iteration : Type 0 where
  pub iter : ButtonSet → List Button
  pub count_iter : (s : ButtonSet) (b : Button) → count b (iter s) ≡ (if s b then 1 else 0)
