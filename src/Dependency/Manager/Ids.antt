-- ===== src/Dependency/Manager/Ids.antt =====
-- The IDs that the dependency manager makes for one ENI are different texts.
use Prim.Native.Char.{Char, code}
use Prim.Native.String.append.{cons}
use aws_multi_eni_controller.Prelude.{
  ℕ, String, ◌<>◌, false, ◌≡◌, sym, ap, ◌∙◌, inl, inr, str_eq, eq_iff, arith, Bool-cases,
}

first_code : String → ℕ
first_code String.[] = 0
first_code (String.◌∷◌ c s) = code c

second_code : String → ℕ
unfolding first_code
second_code String.[] = 0
second_code (String.◌∷◌ c s) = first_code s

first_code-append : (c : Char) (s t : String) → first_code (String.◌∷◌ c s <> t) ≡ code c
unfolding first_code
first_code-append c s t = ap first_code (cons c s t)

second_code-append :
    (b c : Char) (s t : String) → second_code (String.◌∷◌ b (String.◌∷◌ c s) <> t) ≡ code c
unfolding second_code first_code
second_code-append b c s t = ap second_code (cons b (String.◌∷◌ c s) t) ∙ first_code-append c s t

differ : (s t : String) → (s ≡ t → ⊥) → str_eq s t ≡ false
differ s t h = elim (Bool-cases (str_eq s t)) [ inr f ↦ f | inl e ↦ absurd (h ((eq_iff s t).0 e)) ]

pub instance-eni : (s t : String) → str_eq ("instance-" <> s) ("eni-" <> t) ≡ false
instance-eni s t = differ _ _ (λ e.
    clash
      (sym (first_code-append "i" "nstance-" s) ∙ ap first_code e ∙ first_code-append "e" "ni-" t))
  where
    clash : ◌≡◌ {A = ℕ} 105 101 → ⊥
    clash h = omega arith

pub subnet-eni : (s t : String) → str_eq ("subnet-" <> s) ("eni-" <> t) ≡ false
subnet-eni s t = differ _ _ (λ e.
    clash
      (sym (first_code-append "s" "ubnet-" s) ∙ ap first_code e ∙ first_code-append "e" "ni-" t))
  where
    clash : ◌≡◌ {A = ℕ} 115 101 → ⊥
    clash h = omega arith

pub dpdk-detach : (s t : String) → str_eq ("dpdk-unbind-" <> s) ("detach-" <> t) ≡ false
dpdk-detach s t = differ _ _ (λ e. clash (
    sym (second_code-append "d" "p" "dk-unbind-" s)
    ∙ ap second_code e
    ∙ second_code-append "d" "e" "tach-" t))
  where
    clash : ◌≡◌ {A = ℕ} 112 101 → ⊥
    clash h = omega arith
