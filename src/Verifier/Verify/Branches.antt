-- ===== src/Verifier/Verify/Branches.antt =====
-- The verifier and the JIT of casestudy/sbpf/src/safe_mode/jit.rs agree on the target of a jump.
use aeneas2isabelle.Prelude.{ℕ, ◌+◌, ◌*◌, ◌/◌, ◌≤◌, ◌<◌, ◌≡◌, some, List, arith, length}
use aeneas2isabelle.Prelude.Int.{ℤ, pos, negsuc, ◌+ℤ◌}
use aeneas2isabelle.Ebpf.Opcodes.{insn_size}
use aeneas2isabelle.Ebpf.Insn.{Insn, get_insn, usize_max}
use aeneas2isabelle.Program.{SbpfVersion}
use aeneas2isabelle.Verifier.Types.{accepted}
use aeneas2isabelle.Verifier.Arms.{jump}
use aeneas2isabelle.Verifier.Verify.{check_of, verify}
use aeneas2isabelle.Verifier.Verify.Accepted.{IsReadFrom, verify-jumps}
use aeneas2isabelle.Jit.Result.{ok}
use aeneas2isabelle.Jit.Lower.{branch_target}

target-branch_target :
    (k t : ℕ) (off : ℤ) → pos k +ℤ pos 1 +ℤ off ≡ pos t → t ≤ usize_max → branch_target k off ≡ ok t
unfolding ◌+ℤ◌ branch_target
target-branch_target k t (pos n) e small = ground arith
target-branch_target k t (negsuc n) e small = ground arith

-- For every jump that reading an accepted program stops at, the JIT computes a target, and that
-- target is an instruction of the program.
pub verify-branch_target :
    (prog : List ℕ) (version : SbpfVersion) (k : ℕ) (i : Insn)
    → length prog < usize_max
    → verify prog version ≡ accepted tt
    → IsReadFrom prog version 0 k
    → (k + 1) * insn_size ≤ length prog
    → get_insn prog k ≡ some i
    → check_of version i ≡ some jump
    → (t : ℕ) × (branch_target k i.off ≡ ok t) × (t < length prog / insn_size)
verify-branch_target prog version k i small h r inside found arm =
    let (t, _, e, below, _, _) = verify-jumps prog version k i h r inside found arm in
    (t, target-branch_target k t i.off e (omega arith), below)
