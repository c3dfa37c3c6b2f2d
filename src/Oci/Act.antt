-- ===== src/Oci/Act.antt =====
-- Steps of the OCI tools of tools/ that change a state and may raise: what was written before a
-- raise stays written.
use rebekah.Prelude.{◌≡◌, refl}
use rebekah.Prelude.Exec.{ok, err}
use rebekah.Oci.Refusal.{Checked}

abbrev pub Act : Type 0 → Type 0 → Type 0
Act S A = S → Checked A × S

module _ {S : Type 0} where
  abbrev pub continue : {A B : Type 0} → Checked A → (A → Act S B) → Act S B
  continue (ok a) next s = next a s
  continue (err e) next s = (err e, s)

  infixl 5 ◌>>=◌ ◌>>◌
  abbrev pub ◌>>=◌ : {A B : Type 0} → Act S A → (A → Act S B) → Act S B
  ◌>>=◌ run next s = let (value, s') = run s in continue value next s'

  abbrev pub ◌>>◌ : {A B : Type 0} → Act S A → Act S B → Act S B
  first >> second = first >>= λ _. second

  -- A check that reads no state.
  abbrev pub checked : {A : Type 0} → Checked A → Act S A
  checked r s = (r, s)

  -- A chain that succeeds has both of its parts succeed, one after the other.
  pub act_ok :
      {A B : Type 0} (run : Act S A) (next : A → Act S B) (s s' : S) {b : B}
      → (run >>= next) s ≡ (ok b, s')
      → (a : A) × (m : S) × (run s ≡ (ok a, m)) × (next a m ≡ (ok b, s'))
  act_ok {A} {B} run next s s' {b} e = by_result (run s).0 (run s).1 refl e
    where
      by_result :
          (r : Checked A) (m : S)
          → run s ≡ (r, m)
          → continue r next m ≡ (ok b, s')
          → (a : A) × (m' : S) × (run s ≡ (ok a, m')) × (next a m' ≡ (ok b, s'))
      by_result (ok a) m f g = (a, m, f, g)
      by_result (err x) m f g = absurd (cc g)

  -- An invariant holds after a chain where it holds after its first part, and after the rest.
  pub bind_keeps :
      (I : S → Type 0) {A B : Type 0} (run : Act S A) (next : A → Act S B) (s : S)
      → I (run s).1
      → ((a : A) (m : S) → run s ≡ (ok a, m) → I m → I (next a m).1)
      → I ((run >>= next) s).1
  bind_keeps I {A} {B} run next s h h' = by_result (run s).0 (run s).1 refl h
    where
      by_result : (r : Checked A) (m : S) → run s ≡ (r, m) → I m → I (continue r next m).1
      by_result (ok a) m e i = h' a m e i
      by_result (err x) m e i = i
