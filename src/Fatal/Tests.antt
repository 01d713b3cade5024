-- ===== src/Fatal/Tests.antt =====
-- The handler for fatal signals at a concrete fault.
use user_space_threads.Prelude.{ℕ, ◌+◌, ◌≤◌, ◌<◌, ◌≡◌, false, [], ◌∷◌, exit_with, arith}
use user_space_threads.Fatal.{
  Fatal, at_instruction, break_at, page_of, install_fatal_handlers, segfault_handler, sigsegv,
}
use user_space_threads.Fatal.Offset.{segfault_handler-offset}

abbrev started : Fatal
started = record { start_addr = 0; handled = λ s. false }

segfault_handler-offset_example :
    (offset : ℕ) × (segfault_handler sigsegv 0 0x5321 (install_fatal_handlers 0x4123 started)
      ≡ (at_instruction sigsegv 0x5321 0 ∷ break_at offset ∷ [], exit_with sigsegv))
    × (offset + page_of 0x4123 ≡ 0x5321 + 0x1000)
    × (page_of 0x4123 ≤ 0x4123)
    × (0x4123 < page_of 0x4123 + 0x1000)
segfault_handler-offset_example =
    segfault_handler-offset sigsegv 0 0x5321 0x4123 started (λ e. absurd (omega arith))
      (omega arith) (omega arith)
