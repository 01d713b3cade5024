-- ===== src/Interrupt.antt =====
-- interrupt.c: the signal mask, the one-shot timer and the registration of the handler. The handler
-- itself, which yields, is in Step.
use user_space_threads.Prelude.{
  ℕ, Bool, true, false, not, Int32, Result, ok, assert, ◌>>◌, ◌==◌, if◌then◌else◌,
}
use user_space_threads.Clock.{Timespec, timespec_sub}
use user_space_threads.Machine.{World}

-- SIG_INTERVAL, in microseconds
abbrev pub sig_interval : ℕ
sig_interval = 200

module _ {H : Type 0} where
  -- The world with the new mask, behind whether interrupts were enabled before.
  unfoldable pub interrupts_set : Bool → World H → Bool × World H
  interrupts_set enable w =
      if enable
      then (w.enabled, record w { enabled = true })
      else (w.enabled, record w { enabled = false })

  unfoldable pub interrupts_on : World H → Bool × World H
  unfolding interrupts_set
  interrupts_on w = interrupts_set true w

  unfoldable pub interrupts_off : World H → Bool × World H
  unfolding interrupts_set
  interrupts_off w = interrupts_set false w

  unfoldable pub interrupts_enabled : World H → Bool
  interrupts_enabled w = w.enabled

  unfoldable pub interrupts_quiet : World H → World H
  interrupts_quiet w = record w { timer = record (w.timer) { loud = false } }

  unfoldable pub interrupts_loud : World H → World H
  interrupts_loud w = record w { timer = record (w.timer) { loud = true } }

  -- `printed` is what vprintf returns.
  unfoldable pub unintr_printf : Int32 → World H → Int32 × World H
  unfolding interrupts_off interrupts_set
  unintr_printf printed w0 =
      let (enabled, w) = interrupts_off w0 in
      let (_, w') = interrupts_set enabled w in (printed, w')

  -- setitimer with no interval: the timer fires once.
  unfoldable pub set_interrupt : World H → World H
  set_interrupt w = record w { timer = record (w.timer) { usec = sig_interval } }

  -- It may be called once. That sigaction installs the handler is not a fact of this program.
  unfoldable pub register_interrupt_handler : Bool → World H → Result (World H)
  unfolding set_interrupt
  register_interrupt_handler verbose w = do
    assert (not w.timer.registered)
    ok (set_interrupt (record w { timer = record (w.timer) { registered = true; loud = verbose } }))

  -- What the handler notes when it is loud: `ret` and `now` are the answer of clock_gettime, and the
  -- difference is taken from the second message on. The message itself is left out.
  unfoldable pub note_time : Int32 → Timespec → World H → Result (World H)
  note_time ret now w = do
    assert (ret == 0)
    let t = w.timer
    ok (record w {
      timer = record t {
        end = now;
        diff = (if t.first then t.diff else timespec_sub now t.start);
        first = false;
        start = now;
      };
    })
