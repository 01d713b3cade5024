-- ===== src/Machine/Switch.antt =====
-- setcontext, as thread.c uses it.
use user_space_threads.Prelude.{ok, halt, bad_context}
use user_space_threads.Machine.{Context, unset, saved, World, Outcome}

-- The saved mask is restored and the innermost open call goes on. A context in which nothing was
-- stored holds no address to go on at.
unfoldable pub setcontext : {H : Type 0} → Context → World H → Outcome H
setcontext unset w = halt bad_context
setcontext (saved mask stack) w =
    ok (record { value = 0; stack = stack; world = record w { enabled = mask } })
