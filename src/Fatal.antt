-- ===== src/Fatal.antt =====
-- common.c: what the program does with a fatal signal. The messages stand for the texts that are
-- written; an `unsigned long` is its pattern of 64 bits.
pub mod Offset
mod Tests
use user_space_threads.Prelude.{
  ℕ, ◌*◌, ◌/◌, ◌%◌, Bool, true, List, [], ◌∷◌, Int32, Halt, exit_with, add_long, sub_long, update,
  ◌==◌, if◌then◌else◌,
}

-- The numbers of the signals, as Linux has them.
abbrev pub sigill : Int32
sigill = 4

abbrev pub sigtrap : Int32
sigtrap = 5

abbrev pub sigabrt : Int32
sigabrt = 6

abbrev pub sigfpe : Int32
sigfpe = 8

abbrev pub sigsegv : Int32
sigsegv = 11

-- The global of common.c, and for which signals its handler is installed.
pub record Fatal : Type 0 where
  pub start_addr : ℕ
  pub handled : Int32 → Bool

pub data Message : Type 0 where
  -- the signal, the instruction and the address of the fault
  at_instruction : Int32 → ℕ → ℕ → Message
  -- the offset of the instruction in the executable
  break_at : ℕ → Message

-- `(unsigned long)base & 0xfffffffffffff000`: the low 12 bits are cleared.
abbrev pub page_of : ℕ → ℕ
page_of base = base / 4096 * 4096

-- sigaction (signum, &sig_action, &old_action)
abbrev pub sigaction : Int32 → Fatal → Fatal
sigaction signum f = record f { handled = update f.handled signum true }

unfoldable pub install_fatal_handlers : ℕ → Fatal → Fatal
install_fatal_handlers base f =
    let f1 = record f { start_addr = page_of base } in
    sigaction sigfpe
      (sigaction sigill (sigaction sigtrap (sigaction sigabrt (sigaction sigsegv f1))))

-- `pc` is the instruction pointer of the context, `si_addr` the address in `info`.
unfoldable pub segfault_handler : Int32 → ℕ → ℕ → Fatal → List Message × Halt
segfault_handler signum si_addr pc f =
    let first = at_instruction signum pc si_addr in
    if signum == sigabrt
    then (first ∷ [], exit_with signum)
    else (let bad_instr_offset = add_long (sub_long pc f.start_addr) 0x1000 in
        (first ∷ break_at bad_instr_offset ∷ [], exit_with signum))
