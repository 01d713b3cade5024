-- ===== src/Fatal/Offset.antt =====
-- Which instruction the handler for fatal signals names.
use user_space_threads.Prelude.{
  ℕ, ◌+◌, ◌^◌, ◌≤◌, ◌<◌, ◌≡◌, ◌≢◌, [], ◌∷◌, Int32, exit_with, arith, add_long, sub_long,
}
use user_space_threads.Fatal.{
  Fatal, at_instruction, break_at, page_of, install_fatal_handlers, segfault_handler, sigabrt,
}

-- When the handlers have been installed for code that is loaded at `base`, a fault at an
-- instruction behind the start of the page of `base`, by a signal other than SIGABRT, is reported
-- with the offset of the instruction from the page before that one, and the process exits with the
-- number of the signal.
pub segfault_handler-offset :
    (signum : Int32) (si_addr pc base : ℕ) (f : Fatal)
    → signum ≢ sigabrt
    → base ≤ pc
    → pc + 0x1000 < 2 ^ 64
    → (offset : ℕ) × (segfault_handler signum si_addr pc (install_fatal_handlers base f)
        ≡ (at_instruction signum pc si_addr ∷ break_at offset ∷ [], exit_with signum))
      × (offset + page_of base ≡ pc + 0x1000)
      × (page_of base ≤ base)
      × (base < page_of base + 0x1000)
unfolding segfault_handler install_fatal_handlers
segfault_handler-offset signum si_addr pc base f ne h g = (
  add_long (sub_long pc (page_of base)) 0x1000,
  ground arith,
  omega arith,
  omega arith,
  omega arith,
)
