-- ===== src/Logger/Runs.antt =====
-- The steps of the logger: what callers, the worker and the owner do.
use net_serve.Prelude.{
  ◌<◌, ◌≤◌, ◌≡◌, Bool, true, false, ◌&&◌, some, if◌then◌else◌, List, [], ◌∷◌, ◌++◌, Bytes, length,
}
use net_serve.Logger.{
  Level, Message, Logger, Config, Event, console, file, Worker, testing, popping, holding, gone,
  worker_step, log_sync, log_async, stop_worker, set_config, set_level, enable_async, is_shown,
  stamp_of,
}

-- A message that came to be written, by the worker or at once by a caller, and where to.
pub record Entry : Type 0 where
  pub message : Message
  pub on_console : Bool
  pub in_file : Bool
  pub by_worker : Bool

-- What is on the console and in the file, the newest first as the entries are.
abbrev pub events_of : List Entry → List Event
events_of [] = []
events_of (e ∷ es) =
    let m = e.message in
    let rest = if e.on_console then console m.level m.text ∷ events_of es else events_of es in
    if e.in_file then file m.timestamp m.level m.text ∷ rest else rest

-- The messages that the worker wrote, the oldest first.
abbrev pub written : List Entry → List Message
written [] = []
written (e ∷ es) = if e.by_worker then written es ++ e.message ∷ [] else written es

-- The logger with its worker, the messages that the queue took, the oldest first, and the entries.
pub record Run : Type 0 where
  pub logger : Logger
  pub worker : Worker
  pub taken : List Message
  pub entries : List Entry

abbrev pub held : Worker → List Message
held testing = []
held popping = []
held (holding m) = m ∷ []
held gone = []

-- The entry that the worker's message gets: the settings of the moment count.
abbrev pub entry_of : Message → Logger → Entry
entry_of m l = record {
  message = m;
  on_console = l.config.enable_console && is_shown m.level l;
  in_file = l.config.enable_file && l.file_open;
  by_worker = true;
}

abbrev pub noted : Worker → Logger → List Entry → List Entry
noted (holding m) l es = entry_of m l ∷ es
noted w l es = es

abbrev pub message_of : Bytes → Level → Bytes → Logger → Message
message_of now v text l = record { level = v; text = text; timestamp = stamp_of now l }

-- The entry of a message that a caller writes.
abbrev pub entry_at : Bytes → Level → Bytes → Logger → Entry
entry_at now v text l = record {
  message = message_of now v text l;
  on_console = is_shown v l;
  in_file = is_shown v l && (l.config.enable_file && l.file_open);
  by_worker = false;
}

-- The three ways of `log_internal_async`, its direct sibling, the worker, and the owner.
pub data Step (s : Run) : Run → Type 0 where
  drop :
      (ok : Bool) (now : Bytes) (v : Level) (text : Bytes)
      → (is_shown v s.logger && ok) ≡ false
      → Step s (record s { logger = log_async ok now v text s.logger })
  take :
      (now : Bytes) (v : Level) (text : Bytes)
      → is_shown v s.logger ≡ true
      → s.logger.size < s.logger.max_size
      → Step s (record s {
        logger = log_async true now v text s.logger;
        taken = s.taken ++ message_of now v text s.logger ∷ [];
      })
  overflow :
      (now : Bytes) (v : Level) (text : Bytes)
      → is_shown v s.logger ≡ true
      → s.logger.max_size ≤ s.logger.size
      → Step s (record s {
        logger = log_async true now v text s.logger;
        entries = entry_at now v text s.logger ∷ s.entries;
      })
  write_now :
      (now : Bytes) (v : Level) (text : Bytes)
      → Step s (record s {
        logger = log_sync now v text s.logger;
        entries = entry_at now v text s.logger ∷ s.entries;
      })
  work :
      {w : Worker} {l : Logger}
      → worker_step s.worker s.logger ≡ some (w, l)
      → Step s (record s { logger = l; worker = w; entries = noted s.worker s.logger s.entries })
  stop : Step s (record s { logger = stop_worker s.logger })
  configure : (c : Config) → Step s (record s { logger = set_config c s.logger })
  adjust : (v : Level) → Step s (record s { logger = set_level v s.logger })
  switch : (b : Bool) → Step s (record s { logger = enable_async b s.logger })

pub data Reach (s : Run) : Run → Type 0 where
  here : Reach s s
  next : {t u : Run} → Reach s t → Step t u → Reach s u

pub record IsOrderly (s : Run) : Type 0 where
  pub order : s.taken ≡ written s.entries ++ (held s.worker ++ s.logger.messages)
  pub counted : s.logger.size ≡ length s.logger.messages
  pub events : s.logger.events ≡ events_of s.entries
