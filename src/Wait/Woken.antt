-- ===== src/Wait/Woken.antt =====
-- What waking threads, one after the other as thread_wakeup does, leaves alone.
use user_space_threads.Prelude.{◌≡◌, refl, ◌∙◌, List, [], ◌∷◌, ◌++◌, Int32, arith}
use user_space_threads.Machine.{running, World}
use user_space_threads.Wait.Wakeup.{woken}
use user_space_threads.Wait.Broadcast.{woken_all}

module _ {H : Type 0} where
  -- Waking changes the states of the threads that are woken and the ready queue.
  pub record Roused (t : Int32) (w w' : World H) : Type 0 where
    pub locks : w'.locks ≡ w.locks
    pub cvs : w'.cvs ≡ w.cvs
    pub current : w'.current_thread ≡ w.current_thread
    pub mode : w'.administrative_mode ≡ w.administrative_mode
    pub enabled : w'.enabled ≡ w.enabled
    pub context : (w'.threads t).context ≡ (w.threads t).context
    pub runs : (w.threads t).state ≡ running → (w'.threads t).state ≡ running

  woken-Roused : (t id : Int32) (w : World H) → Roused t w (woken id w)
  woken-Roused t id w = record {
    locks = refl;
    cvs = refl;
    current = refl;
    mode = refl;
    enabled = refl;
    context = ground arith;
    runs = λ h. ground (arith, h);
  }

  pub woken_all-Roused : (t : Int32) (ids : List Int32) (w : World H) → Roused t w (woken_all ids w)
  woken_all-Roused t [] w = record {
    locks = refl;
    cvs = refl;
    current = refl;
    mode = refl;
    enabled = refl;
    context = refl;
    runs = λ h. h;
  }
  woken_all-Roused t (id ∷ ids) w =
      let one = woken-Roused t id w in
      let rest = woken_all-Roused t ids (woken id w) in
      record {
        locks = rest.locks;
        cvs = rest.cvs;
        current = rest.current;
        mode = rest.mode;
        enabled = rest.enabled;
        context = rest.context ∙ one.context;
        runs = λ h. rest.runs (one.runs h);
      }

  pub woken_all-runs :
      (t : Int32) (before after : List Int32) (w : World H)
      → ((woken_all (before ++ t ∷ after) w).threads t).state ≡ running
  woken_all-runs t [] after w = (woken_all-Roused t after (woken t w)).runs (ground arith)
  woken_all-runs t (x ∷ before) after w = woken_all-runs t before after (woken x w)
