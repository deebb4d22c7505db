-- ===== src/ThreadComm/Deadlock.antt =====
-- The calls that lock `global_mutex` while they hold it.
use net_serve.Prelude.{
  ℕ, suc, ◌-◌, ◌≡◌, ◌≤◌, ◌<◌, refl, Bool, true, false, not, ◌&&◌, ◌||◌, some, List, [], ◌∷◌, ◌++◌,
  ◌==◌, if◌then◌else◌, arith, length, subst, sym, ◌∙◌, length-append,
}
use mathlib.Core.List.{append_assoc}
use net_serve.ThreadComm.Table.{Thread, Comm, hangs, returns, thread_at, leave, no_error}
use net_serve.ThreadComm.Threads.{
  unregister_thread, cleanup, cleanup_loop, get_thread_info, get_all_threads, info_loop,
}
use net_serve.ThreadComm.Messages.{Draft, Answers, send_message, broadcast_message, broadcast_loop}

-- Some thread is registered.
unfoldable pub any_registered : List Thread → Bool
any_registered [] = false
any_registered (t ∷ ts) = t.is_registered || any_registered ts

-- Some thread other than this one is registered.
unfoldable pub has_other : ℕ → List Thread → Bool
has_other id [] = false
has_other id (t ∷ ts) = (t.is_registered && not (t.thread_id == id)) || has_other id ts

thread_at-append :
    (done : List Thread) (t : Thread) (ts : List Thread)
    → thread_at (length done) (done ++ t ∷ ts) ≡ some t
unfolding thread_at
thread_at-append [] t ts = refl
thread_at-append (x ∷ done) t ts = thread_at-append done t ts

slot_at :
    (done : List Thread) (t : Thread) (ts : List Thread) {threads : List Thread}
    → threads ≡ done ++ t ∷ ts
    → thread_at (length done) threads ≡ some t
slot_at done t ts e =
    subst (λ xs. thread_at (length done) xs ≡ some t) (sym e) (thread_at-append done t ts)

split_next :
    (done : List Thread) (t : Thread) (ts : List Thread) {threads : List Thread}
    → threads ≡ done ++ t ∷ ts
    → threads ≡ (done ++ t ∷ []) ++ ts
split_next done t ts e = e ∙ sym (append_assoc done (t ∷ []) ts)

-- A message that `thread_comm_send_message` does not turn down before it locks.
abbrev pub IsSendable : Draft → Comm → Type 0
IsSendable d s = (0 < length d.content) × (length d.content ≤ s.config.max_msg_size)

send_message-hangs :
    (a : Answers) (d : Draft) (id : ℕ) (s : Comm)
    → s.initialized ≡ true
    → s.locked ≡ true
    → IsSendable d s
    → send_message a d id s ≡ hangs
unfolding send_message
send_message-hangs a d id s i l h = ground arith

broadcast_loop-hangs :
    (a : Answers) (d : Draft) (sent : ℕ) (s : Comm)
    → s.initialized ≡ true
    → s.locked ≡ true
    → IsSendable d s
    → (done ts : List Thread) → s.threads ≡ done ++ ts
    → broadcast_loop a d (length ts) (length done) sent s
      ≡ (if has_other d.sender_id ts then hangs else returns (some sent) s)
unfolding broadcast_loop has_other
broadcast_loop-hangs a d sent s i l h done [] e = refl
broadcast_loop-hangs a d sent s i l h done (t ∷ ts) e =
    let next = broadcast_loop-hangs a d sent s i l h (done ++ t ∷ []) ts (split_next done t ts e) in
    ground (
      arith,
      slot_at done t ts e,
      send_message-hangs a d t.thread_id s i l h,
      subst
          (λ n.
            broadcast_loop a d (length ts) n sent s
            ≡ (if has_other d.sender_id ts then hangs else returns (some sent) s))
          (length-append done (t ∷ [])) next,
    )

-- A broadcast of a message that can be sent waits for its own mutex forever if any thread but the
-- sender is registered. Else it returns 0 successes: no broadcast ever delivers a message.
pub broadcast_message-hangs :
    (a : Answers) (d : Draft) (s : Comm)
    → s.initialized ≡ true
    → s.locked ≡ false
    → IsSendable d s
    → broadcast_message a d s
      ≡ (if has_other d.sender_id s.threads then hangs else leave (some 0) no_error s)
unfolding broadcast_message
broadcast_message-hangs a d s i l h =
    ground
      (arith, broadcast_loop-hangs a d 0 (record s { locked = true }) i refl h [] s.threads refl)

unregister_thread-hangs :
    (id : ℕ) (s : Comm) → s.initialized ≡ true → s.locked ≡ true → unregister_thread id s ≡ hangs
unfolding unregister_thread
unregister_thread-hangs id s i l = ground arith

cleanup_loop-hangs :
    (s : Comm)
    → s.initialized ≡ true
    → s.locked ≡ true
    → (done ts : List Thread) → s.threads ≡ done ++ ts
    → cleanup_loop (length ts) (length done) s
      ≡ (if any_registered ts then hangs else returns true s)
unfolding cleanup_loop any_registered
cleanup_loop-hangs s i l done [] e = refl
cleanup_loop-hangs s i l done (t ∷ ts) e =
    let next = cleanup_loop-hangs s i l (done ++ t ∷ []) ts (split_next done t ts e) in
    ground (
      arith,
      slot_at done t ts e,
      unregister_thread-hangs t.thread_id s i l,
      subst
          (λ n.
            cleanup_loop (length ts) n s ≡ (if any_registered ts then hangs else returns true s))
          (length-append done (t ∷ [])) next,
    )

get_thread_info-hangs :
    (id : ℕ) (s : Comm) → s.initialized ≡ true → s.locked ≡ true → get_thread_info id s ≡ hangs
unfolding get_thread_info
get_thread_info-hangs id s i l = ground arith

info_loop-hangs :
    (left : ℕ) (s : Comm)
    → s.initialized ≡ true
    → s.locked ≡ true
    → (done ts : List Thread) → s.threads ≡ done ++ ts
    → info_loop (length ts) (length done) (suc left) s
      ≡ (if any_registered ts then hangs else returns (some []) s)
unfolding info_loop any_registered
info_loop-hangs left s i l done [] e = refl
info_loop-hangs left s i l done (t ∷ ts) e =
    let next = info_loop-hangs left s i l (done ++ t ∷ []) ts (split_next done t ts e) in
    ground (
      arith,
      slot_at done t ts e,
      get_thread_info-hangs t.thread_id s i l,
      subst
          (λ n.
            info_loop (length ts) n (suc left) s
            ≡ (if any_registered ts then hangs else returns (some []) s))
          (length-append done (t ∷ [])) next,
    )

-- With any thread registered, `thread_comm_cleanup` and `thread_comm_get_all_threads` wait for their
-- own mutex forever, the second if the count of threads is not 0 and memory suffices. With none
-- registered, the cleanup leaves the module as not initialized.
pub cleanup-hangs :
    (s : Comm)
    → s.initialized ≡ true
    → s.locked ≡ false
    → (any_registered s.threads ≡ true
        → (cleanup s ≡ hangs) × (0 < s.active_thread_count → get_all_threads true s ≡ hangs))
      × (any_registered s.threads ≡ false
          → cleanup s ≡ returns true (record s { initialized = false; threads = [] }))
unfolding cleanup get_all_threads
cleanup-hangs s i l =
    let held = record s { locked = true } in
    (
      λ r. (
        ground (arith, cleanup_loop-hangs held i refl [] s.threads refl),
        λ c.
            ground
              (arith, info_loop-hangs (s.active_thread_count - 1) held i refl [] s.threads refl),
      ),
      λ r. ground (arith, cleanup_loop-hangs held i refl [] s.threads refl),
    )
