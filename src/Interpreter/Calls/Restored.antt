-- ===== src/Interpreter/Calls/Restored.antt =====
-- The registers after a return.
use aeneas2isabelle.Prelude.{
  ℕ, ◌-◌, ◌≤◌, ◌<◌, ◌≡◌, some, List, ◌++◌, length, get_elem?, get_elem?-set_self, get_elem?-set_ne,
  get_elem?-append_lt, get_elem?-append_ge, get_elem?-take, get_elem?-drop, length-set, length-take,
  length-drop, set, take, drop, arith, Bool-cases, inl, inr, ◌==◌, ◌∙◌, sym,
}
use aeneas2isabelle.Ebpf.Opcodes.{frame_ptr_reg}
use aeneas2isabelle.Interpreter.Frames.{scratch, restore_scratch}

restored_low :
    (saved reg : List ℕ) (i : ℕ)
    → length reg ≡ 12
    → i < 6
    → get_elem? (restore_scratch saved reg) i ≡ get_elem? reg i
restored_low saved reg i e h =
    get_elem?-append_lt (take 6 reg) (saved ++ drop 10 reg) i
      (omega (arith, length-take 6 reg (omega arith)))
    ∙ get_elem?-take 6 reg i h

restored_saved :
    (reg old : List ℕ) (i : ℕ)
    → length reg ≡ 12
    → length old ≡ 12
    → 6 ≤ i
    → i < 10
    → get_elem? (restore_scratch (scratch old) reg) i ≡ get_elem? old i
restored_saved reg old i e h more below =
    let many = length-take 4 (drop 6 old) (omega (arith, length-drop 6 old (omega arith))) in
    get_elem?-append_ge (take 6 reg) (scratch old ++ drop 10 reg) i (i - 6)
      (omega (arith, length-take 6 reg (omega arith)))
    ∙ (get_elem?-append_lt (scratch old) (drop 10 reg) (i - 6) (omega arith)
        ∙ (get_elem?-take 4 (drop 6 old) (i - 6) (omega arith)
            ∙ get_elem?-drop 6 old i (i - 6) (omega arith)))

restored_high :
    (old reg : List ℕ) (i : ℕ)
    → length reg ≡ 12
    → length old ≡ 12
    → 10 ≤ i
    → get_elem? (restore_scratch (scratch old) reg) i ≡ get_elem? reg i
restored_high old reg i e h more =
    let many = length-take 4 (drop 6 old) (omega (arith, length-drop 6 old (omega arith))) in
    get_elem?-append_ge (take 6 reg) (scratch old ++ drop 10 reg) i (i - 6)
      (omega (arith, length-take 6 reg (omega arith)))
    ∙ (get_elem?-append_ge (scratch old) (drop 10 reg) (i - 6) (i - 10) (omega arith)
        ∙ get_elem?-drop 10 reg i (i - 10) (omega arith))

pub restored_caller :
    (old reg : List ℕ) (frame_pointer i : ℕ)
    → length old ≡ 12
    → length reg ≡ 12
    → get_elem? old frame_ptr_reg ≡ some frame_pointer
    → 6 ≤ i
    → i ≤ 10
    → get_elem? (restore_scratch (scratch old) (set reg frame_ptr_reg frame_pointer)) i
      ≡ get_elem? old i
restored_caller old reg frame_pointer i e h at more below =
    let many = length-set reg frame_ptr_reg frame_pointer ∙ h in
    elim (Bool-cases (i == 10)) [
      | inl same ↦
          let is_ten : i ≡ 10 = ground arith in
          rw is_ten (
            restored_high old _ 10 many e (omega arith)
            ∙ (get_elem?-set_self reg frame_ptr_reg frame_pointer (omega arith) ∙ sym at))
      | inr other ↦ restored_saved _ old i many e more (ground arith)
    ]

pub restored_callee :
    (saved reg : List ℕ) (frame_pointer i : ℕ)
    → length reg ≡ 12
    → i < 6
    → get_elem? (restore_scratch saved (set reg frame_ptr_reg frame_pointer)) i ≡ get_elem? reg i
restored_callee saved reg frame_pointer i h below =
    restored_low saved _ i (length-set reg frame_ptr_reg frame_pointer ∙ h) below
    ∙ get_elem?-set_ne reg frame_ptr_reg i frame_pointer (λ e. absurd (omega arith))
