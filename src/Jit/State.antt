-- ===== src/Jit/State.antt =====
-- casestudy/sbpf/src/safe_mode/jit.rs: the methods of `JitCompilerModel` that write bytes and those
-- that keep and resolve offsets. A `usize` has 64 bits.
use aeneas2isabelle.Prelude.{
  ℕ, zero, suc, ◌+◌, ◌-◌, ◌^◌, Option, none, some, List, [], ◌∷◌, ◌++◌, ltb, leb, if◌then◌else◌,
  length, get_elem?, set, replicate,
}
use aeneas2isabelle.Prelude.Int.{ℤ, pos, sub_ℕ, in_i32, wrap}
use aeneas2isabelle.Prelude.Words.{le_bytes}
use aeneas2isabelle.X86.Types.{OperandSize, X86Instruction}
use aeneas2isabelle.X86.Encode.{size_bytes, encode}
use aeneas2isabelle.Jit.Types.{
  JumpModel, JitModelError, invalid_anchor, invalid_program_counter, anchor_not_set,
  program_counter_not_set, relative_offset_out_of_range, invalid_relocation, JitCompilerModel,
}
use aeneas2isabelle.Jit.Result.{
  Result, ok, err, bind, ok_or, M, done, failed, ◌>>=◌, ◌>>◌, lift, pure,
}

unfoldable pub new : ℕ → ℕ → JitCompilerModel
new program_counter_count anchor_count = record {
  text_section = [];
  pc_section = replicate program_counter_count none;
  text_section_jumps = [];
  anchors = replicate anchor_count none;
}

unfoldable pub offset_in_text_section : JitCompilerModel → ℕ
offset_in_text_section s = length s.text_section

unfoldable pub emit_bytes : List ℕ → JitCompilerModel → JitCompilerModel
emit_bytes bytes s = record s { text_section = s.text_section ++ bytes }

unfoldable pub emit_byte : ℕ → JitCompilerModel → JitCompilerModel
unfolding emit_bytes
emit_byte byte s = emit_bytes (byte ∷ []) s

-- `data` is a `u64`.
unfoldable pub emit_variable_length : OperandSize → ℕ → JitCompilerModel → JitCompilerModel
unfolding emit_bytes
emit_variable_length size word s = emit_bytes (le_bytes (size_bytes size) word) s

-- `emit_ins`, as a method that cannot fail.
unfoldable pub emit_ins : X86Instruction → M (Unit {0})
unfolding emit_bytes
emit_ins instruction s = done tt (emit_bytes (encode instruction) s)

unfoldable pub set_program_counter : ℕ → M (Unit {0})
set_program_counter pc s =
    if ltb pc (length s.pc_section)
    then done tt (record s { pc_section = set s.pc_section pc (some (length s.text_section)) })
    else failed invalid_program_counter s

unfoldable pub set_anchor : ℕ → M (Unit {0})
set_anchor anchor s =
    if ltb anchor (length s.anchors)
    then done tt (record s { anchors = set s.anchors anchor (some (length s.text_section)) })
    else failed invalid_anchor s

-- `usize::checked_add`.
unfoldable pub checked_add : ℕ → ℕ → JitModelError → Result ℕ
checked_add a b e = if ltb (a + b) (2 ^ 64) then ok (a + b) else err e

-- `usize::checked_sub`.
unfoldable pub checked_sub : ℕ → ℕ → JitModelError → Result ℕ
checked_sub a b e = if leb b a then ok (a - b) else err e

-- The difference is taken in `i128`, which holds it.
unfoldable pub relative_offset : ℕ → ℕ → Result ℤ
relative_offset destination instruction_end =
    let difference = sub_ℕ destination instruction_end in
    if in_i32 difference then ok difference else err relative_offset_out_of_range

-- `.get(i).ok_or(outside)?.ok_or(unset)?`.
unfoldable pub read_offset : List (Option ℕ) → ℕ → JitModelError → JitModelError → Result ℕ
read_offset table i outside unset =
    bind (ok_or (get_elem? table i) outside) λ slot. ok_or slot unset

unfoldable pub relative_to_anchor : ℕ → ℕ → JitCompilerModel → Result ℤ
unfolding read_offset checked_add relative_offset
relative_to_anchor anchor instruction_length s =
    bind (read_offset s.anchors anchor invalid_anchor anchor_not_set) λ destination.
      bind (checked_add (length s.text_section) instruction_length relative_offset_out_of_range)
        (relative_offset destination)

-- The `match destination` of `relative_to_target_pc`.
unfoldable pub displacement_or_jump : Option ℕ → ℕ → ℕ → M ℤ
unfolding relative_offset checked_sub
displacement_or_jump (some destination) target_pc instruction_end =
    lift (relative_offset destination instruction_end)
displacement_or_jump none target_pc instruction_end = do
  location ← lift (checked_sub instruction_end 4 invalid_relocation)
  λ s. done (pos 0) (record s {
    text_section_jumps =
        s.text_section_jumps ++ record { location = location; target_pc = target_pc } ∷ [];
  })

unfoldable pub relative_to_target_pc : ℕ → ℕ → M ℤ
unfolding displacement_or_jump checked_add
relative_to_target_pc target_pc instruction_length s =
    (do
      destination ← lift (ok_or (get_elem? s.pc_section target_pc) invalid_program_counter)
      instruction_end ←
          lift (checked_add (length s.text_section) instruction_length relative_offset_out_of_range)
      displacement_or_jump destination target_pc instruction_end)
      s

-- `copy_from_slice` into the bytes from a location on.
unfoldable pub overwrite : ℕ → List ℕ → List ℕ → List ℕ
overwrite zero [] text = text
overwrite zero (b ∷ bytes) [] = []
overwrite zero (b ∷ bytes) (x ∷ text) = b ∷ overwrite zero bytes text
overwrite (suc n) bytes [] = []
overwrite (suc n) bytes (x ∷ text) = x ∷ overwrite n bytes text

-- `.get_mut(start..end).ok_or(InvalidRelocation)?.copy_from_slice(bytes)`, with `start <= end`.
unfoldable pub write_relocation : ℕ → ℕ → ℤ → M (Unit {0})
unfolding overwrite
write_relocation location instruction_end displacement s =
    if leb instruction_end (length s.text_section)
    then done tt (record s {
      text_section = overwrite location (le_bytes 4 (wrap (2 ^ 32) displacement)) s.text_section;
    })
    else failed invalid_relocation s

-- The body of the loop of `resolve_jumps`.
unfoldable pub resolve_jump : JumpModel → M (Unit {0})
unfolding read_offset checked_add relative_offset write_relocation
resolve_jump jump s =
    (do
      destination ←
          lift (
            read_offset s.pc_section jump.target_pc invalid_program_counter program_counter_not_set)
      instruction_end ← lift (checked_add jump.location 4 invalid_relocation)
      displacement ← lift (relative_offset destination instruction_end)
      write_relocation jump.location instruction_end displacement)
      s

unfoldable pub resolve_loop : List JumpModel → M (Unit {0})
resolve_loop [] = pure tt
resolve_loop (jump ∷ jumps) = do resolve_jump jump; resolve_loop jumps

unfoldable pub resolve_jumps : M (Unit {0})
unfolding resolve_loop
resolve_jumps s =
    (do resolve_loop s.text_section_jumps; λ t. done tt (record t { text_section_jumps = [] })) s
