-- ===== src/Zepoll.antt =====
-- smer/Server/inc/Zepoll.h: the server's loop over epoll. The kernel is not part of the repository: an
-- event has what recv or accept gives to the handler that it goes to, and epoll_ctl is taken to fail
-- only where the manual says so, on adding a descriptor that is there and on changing one that is not.
-- A descriptor is never closed. The log is left out.
pub mod Start
pub mod Serving
pub mod Batch
pub mod Reached
pub mod Session
mod Tests
use ifellsofuckinggood.Prelude.{
  ℕ, ◌<◌, ◌≡◌, ℤ, pos, Bytes, Bool, true, false, Option, none, some, List, [], ◌∷◌, ◌++◌, take, ltb,
  ◌==◌, overwrite, length, if◌then◌else◌, Outcome, returned, thrown, undefined,
}
use ifellsofuckinggood.TransObj.{TransObj, new_default, trans_buff2_obj}
use ifellsofuckinggood.HandleMsg.{Task, server_handle}

-- epoll_event, with what the handler's call of recv or accept gives: the bytes, if there are any, and
-- the descriptor of the connection, if there is one.
pub record Event : Type 0 where
  pub fd : ℕ
  pub hup : Bool
  pub err : Bool
  pub readable : Bool
  pub writable : Bool
  pub received : Option Bytes
  pub accepted : Option ℕ

-- EchoHandler
pub record Echo : Type 0 where
  pub received : ℕ
  pub buffer : Bytes

pub data Handler : Type 0 where
  echo_handler : Echo → Handler
  server_handler : Handler

-- What the kernel keeps of a descriptor: the data that it reports, and whether for reading and for
-- writing.
pub record Interest : Type 0 where
  pub report : ℕ
  pub epollin : Bool
  pub epollout : Bool

-- The loop with the kernel's set, what has been sent back, and the tasks given to the thread pool.
-- A missing handler and a null pointer are both `none`.
pub record IoLoop : Type 0 where
  pub handlers : ℕ → Option Handler
  pub epoll : ℕ → Option Interest
  pub echoed : List (ℕ × Bytes)
  pub tasks : List Task

abbrev pub update {ℓ} : {A : Type ℓ} → ℕ → A → (ℕ → A) → ℕ → A
update i a f j = if i == j then a else f j

abbrev pub added : ℕ → Option Interest → Option Interest
added fd none = some (record { report = fd; epollin = true; epollout = false })
added fd (some i) = some i

-- With EPOLLIN, the only events that the program asks for.
unfoldable pub add_handler : ℕ → Handler → IoLoop → IoLoop
add_handler fd h s = record s {
  handlers = update fd (some h) s.handlers;
  epoll = update fd (added fd (s.epoll fd)) s.epoll;
}

-- `junk` is the data of the event, which is not set.
abbrev pub modified : ℕ → Option Interest → Option Interest
modified junk none = none
modified junk (some i) = some (record { report = junk; epollin = true; epollout = false })

unfoldable pub modify_handler : ℕ → ℕ → IoLoop → IoLoop
modify_handler junk fd s = record s { epoll = update fd (modified junk (s.epoll fd)) s.epoll }

unfoldable pub remove_handler : ℕ → IoLoop → IoLoop
remove_handler fd s = record s {
  handlers = update fd none s.handlers;
  epoll = update fd none s.epoll;
}

abbrev pub tasks_of : Option Task → List Task
tasks_of none = []
tasks_of (some t) = t ∷ []

module _ (junk : ℕ) (junk_buffer : Bytes) where
  -- The object that transBuff2Obj has filled goes to the message handler.
  pub on_obj : ℕ → Option (Bool × TransObj) → IoLoop → Outcome IoLoop
  on_obj fd none s = undefined
  on_obj fd (some (ok, obj)) s =
      returned (record s { tasks = s.tasks ++ tasks_of (server_handle (some obj) (pos fd)) })

  pub on_recv : ℕ → Option Bytes → Echo → IoLoop → Outcome IoLoop
  unfolding on_obj remove_handler
  on_recv fd none h s = returned (remove_handler fd s)
  on_recv fd (some chunk) h s =
      let buffer = overwrite chunk h.buffer in
      on_obj fd (trans_buff2_obj (some buffer) new_default) (record s {
        handlers =
            update fd (some (echo_handler (record { received = length chunk; buffer = buffer })))
              s.handlers;
      })

  pub on_out : ℕ → Echo → IoLoop → IoLoop
  unfolding modify_handler
  on_out fd h s = modify_handler junk fd (
      if ltb 0 h.received
      then record s { echoed = s.echoed ++ (fd, take h.received h.buffer) ∷ [] }
      else s)

  -- EchoHandler::handle
  pub echo_handle : Event → Echo → IoLoop → Outcome IoLoop
  unfolding on_recv on_out
  echo_handle e h s =
      let s' = if e.writable then on_out e.fd h s else s in
      if e.hup
      then returned (remove_handler e.fd s)
      else if e.err
      then returned s
      else if e.readable
      then on_recv e.fd e.received h s'
      else returned s'

  -- ServerHandler::handle
  pub server_accept : Option ℕ → IoLoop → IoLoop
  unfolding add_handler
  server_accept none s = s
  server_accept (some client) s =
      add_handler client (echo_handler (record { received = 0; buffer = junk_buffer })) s

  pub call_handler : Event → Option Handler → IoLoop → Outcome IoLoop
  unfolding echo_handle server_accept
  call_handler e none s = undefined
  call_handler e (some (echo_handler h)) s = echo_handle e h s
  call_handler e (some server_handler) s = returned (server_accept e.accepted s)

  unfoldable pub dispatch : Event → IoLoop → Outcome IoLoop
  unfolding call_handler
  dispatch e s = call_handler e (s.handlers e.fd) s

  pub and_then : Outcome IoLoop → (IoLoop → Outcome IoLoop) → Outcome IoLoop
  and_then (returned s) f = f s
  and_then thrown f = thrown
  and_then undefined f = undefined

  -- One round of IOLoop::start, over the events that epoll_wait has given.
  unfoldable pub handle_events : List Event → IoLoop → Outcome IoLoop
  unfolding and_then
  handle_events [] s = returned s
  handle_events (e ∷ es) s = and_then (dispatch e s) (handle_events es)

-- IOLoop::IOLoop
abbrev pub new : IoLoop
new = record { handlers = λ i. none; epoll = λ i. none; echoed = []; tasks = [] }

-- ServerHandler::ServerHandler with its listening socket, on a new loop.
unfoldable pub listening : ℕ → IoLoop
unfolding add_handler
listening fd = add_handler fd server_handler new
