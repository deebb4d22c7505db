-- ===== src/Logger/Full.antt =====
-- Which messages are kept, and which are written at once.
use net_serve.Prelude.{
  ◌+◌, ◌≡◌, ◌≤◌, ◌<◌, ◌⊎◌, true, [], ◌∷◌, ◌++◌, Bytes, arith, Bool-cases, inl, inr, leb,
}
use net_serve.Logger.{
  Level, Logger, console, push, log_async, log_sync, write_to_console, write_to_file, is_shown,
  stamp_of, level_number, emit,
}

-- A message below the global level changes nothing. Where memory suffices, any other is put at the
-- end of the queue and nothing is written, if the queue has room; else the queue stays and the
-- message is written to the console, and to the file if that is enabled and open.
pub log_async_cases :
    (now text : Bytes) (v : Level) (l : Logger)
    → ((level_number v < level_number l.global_level) × (log_async true now v text l ≡ l))
      ⊎ (((l.size < l.max_size)
            × (log_async true now v text l ≡ record l {
              messages =
                  l.messages ++ record { level = v; text = text; timestamp = stamp_of now l } ∷ [];
              size = l.size + 1;
            }))
          ⊎ ((l.max_size ≤ l.size)
              × (log_async true now v text l
                  ≡ write_to_file (stamp_of now l) v text (emit (console v text) l))))
unfolding log_async log_sync push write_to_console
log_async_cases now text v l = elim (Bool-cases (is_shown v l)) [
  | inr e ↦ inl (ground arith, ground arith)
  | inl e ↦ elim (Bool-cases (leb l.max_size l.size)) [
    | inr f ↦ inr (inl (ground arith, ground arith))
    | inl f ↦ inr (inr (ground arith, ground arith))
  ]
]
