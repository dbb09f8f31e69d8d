-- ===== src/Tests.antt =====
-- Concrete buffers, tables, loops and connections, and the theorems at them.
use cpp_reactor.Base.{
  ℕ, ◌+◌, ◌^◌, ◌<◌, ◌≡◌, refl, Bytes, codes, upper, true, false, none, some, List, [], ◌∷◌, ◌++◌,
  arith, length, to_string, digits_onto, inl, inr, ℤ, pos, negsuc, ◌∙◌, is_neg, no_fd,
}
use cpp_reactor.Status.{ok}
use cpp_reactor.Buffer
use cpp_reactor.Buffer.{Buffer, done, failed}
use cpp_reactor.Buffer.View.{Inv, view, view-append}
use cpp_reactor.Buffer.Reads.{Received, read_fd-Received}
use cpp_reactor.Channel.{Channel}
use cpp_reactor.Dispatcher.Poll
use cpp_reactor.Dispatcher.Poll.{
  Poll, Slot, free_slot, Unique, registered, polled, poll_events, modify, modify_at,
  poll_dispatcher, find_slot,
}
use cpp_reactor.Dispatcher.{Agrees-eq}
use cpp_reactor.Dispatcher.Poll.Slots.{poll_laws, poll_laws-IsValid, poll_laws-registered}
use cpp_reactor.Loop.{
  EventLoop, Element, add_op, delete_op, process_task_q, process_callbacks, run_tasks,
}
use cpp_reactor.Loop.Map.{lookup}
use cpp_reactor.Loop.Sync
use cpp_reactor.Loop.Sync.{Sync, CanRun, happen_all-Sync}
use cpp_reactor.Loop.Order.{post_all, process-post_all}
use cpp_reactor.Metrics.{zeros}
use cpp_reactor.Connection.{
  Connection, create, init, set_keep_alive_policy, default_result, response_head,
}
use cpp_reactor.Connection.Response.{head_for, response_headers, IsPlain, parse-response}
use cpp_reactor.Connection.Serve
use cpp_reactor.Connection.Life.{Follows}
use cpp_reactor.Connection.Serve.{
  reads, writes, destroys, answers, closes, happen_all, happen_all-Follows, init-IsServing,
}
use cpp_reactor.Http.Request.{parse, new, parse_done}
use cpp_reactor.Http.Request.Spec.{bytes_source}
use cpp_reactor.Guard.{is_read_only_statement}
use cpp_reactor.Guard.Case.{is_read_only_statement-upper}
use cpp_reactor.Url.{url_decode, url_encode_path_component, url_decode-url_encode_path_component}

abbrev small : Buffer
small = record { storage = codes "????????abc."; read_index = 8; write_index = 11 }

small-Inv : Inv small
small-Inv = record {
  prepend = omega arith;
  ordered = omega arith;
  fits = omega arith;
  small = omega arith;
}

view-append_example : view (Buffer.append small (codes "defgh")) ≡ view small ++ codes "defgh"
view-append_example = view-append small (codes "defgh") small-Inv (omega arith)

read_fd-Received_example :
    Received small (Buffer.read_fd small (done (codes "defgh"))) (codes "defgh")
read_fd-Received_example = read_fd-Received small (codes "defgh") small-Inv (omega arith)

abbrev space_only : Bytes
space_only = codes "a b"

url_decode-url_encode_path_component_example :
    url_decode (url_encode_path_component space_only) ≡ space_only
url_decode-url_encode_path_component_example =
    url_decode-url_encode_path_component space_only (omega arith, (omega arith, (omega arith, tt)))

-- A table of two slots, the first one taken.
abbrev table : Poll
table = record {
  slots = record { fd = pos 4; events = 1; revents = 0 } ∷ free_slot ∷ [];
  max_fd = 0;
}

table-Unique : Unique table.slots
unfolding find_slot
table-Unique = (inr refl, (inl refl, tt))

free_five : registered table (pos 5) ≡ false
unfolding find_slot
free_five = refl

modify_runs : (Poll.modify table (pos 4) 4).1 ≡ ok
unfolding Poll.modify Poll.modify_at find_slot
modify_runs = refl

abbrev reader : Channel ℕ
reader = record {
  fd = pos 4;
  events = 2;
  read_callback = some 1;
  write_callback = some 2;
  destroy_callback = none;
}

-- A loop with one channel, over the table.
abbrev loop : EventLoop ℕ Poll
loop = record {
  dispatcher = table;
  tasks = [];
  channels = (pos 4, reader) ∷ [];
  callbacks = [];
  quit = false;
  wakeups = 0;
  closed = [];
}

-- Each callback drops every channel.
abbrev dropping : ℕ → EventLoop ℕ Poll → EventLoop ℕ Poll
dropping c l = record l { channels = [] }

reader_there : lookup (pos 4) loop.channels ≡ some reader
unfolding lookup
reader_there = refl

reader_gone : lookup (pos 4) (dropping 1 loop).channels ≡ none
unfolding lookup
reader_gone = refl

abbrev removal : Element ℕ
removal = record { op = delete_op; channel = none; fd = pos 4 }

process-post_all_example :
    process_task_q poll_dispatcher dropping (post_all poll_dispatcher dropping (removal ∷ []) loop)
    ≡ process_callbacks poll_dispatcher dropping (
        run_tasks poll_dispatcher dropping (removal ∷ []) (
          run_tasks poll_dispatcher dropping loop.tasks
            (record loop { tasks = []; wakeups = loop.wakeups + length (removal ∷ []) })))
process-post_all_example = process-post_all poll_dispatcher dropping (removal ∷ []) loop

abbrev made : Connection
made = init (set_keep_alive_policy 2 0 (create (pos 4) 0 zeros))

abbrev some_events : List Serve.Event
some_events =
    reads 1 (done (codes "GET / HTTP/1.1"))
    ∷ writes 2 (done 3)
    ∷ answers default_result
    ∷ closes
    ∷ closes
    ∷ destroys
    ∷ []

happen_all-Follows_example : Follows made (Serve.happen_all some_events made)
happen_all-Follows_example =
    happen_all-Follows some_events made (init-IsServing (pos 4) 0 2 0 zeros (omega arith))

abbrev hello : Bytes
hello = codes "Hello"

ok-IsPlain : IsPlain (codes "OK") (codes "text/plain")
ok-IsPlain = record { reason_ne = refl; reason_return = ground arith; type_return = ground arith }

parse-response_example :
    parse bytes_source new
      (response_head 200 (codes "OK") (length hello) (codes "text/plain") true ++ (hello ++ hello))
    ≡ (
      ok,
      record new {
        method = codes "HTTP/1.1";
        url = to_string 200;
        version = codes "OK";
        headers = response_headers (length hello) (codes "text/plain") true;
        body = hello;
        cur_state = parse_done;
      },
      hello,
    )
parse-response_example =
    parse-response 200 (codes "OK") (codes "text/plain") true hello hello (omega arith) ok-IsPlain
      (omega arith)

abbrev answering : Connection
answering = record made { write_buffer = small; keep_alive_request = true }

hello_fits :
    small.write_index
      + length (head_for 200 (codes "OK") hello (codes "text/plain") answering)
      + length hello
    < 2 ^ 32
unfolding response_head to_string digits_onto
hello_fits = omega arith

-- A callback that only counts itself.
abbrev counting : ℕ → EventLoop ℕ Poll → EventLoop ℕ Poll
counting c l = record l { wakeups = l.wakeups + c }

counting-Sync : (c : ℕ) (l : EventLoop ℕ Poll) → Sync poll_laws l → Sync poll_laws (counting c l)
counting-Sync c l s = record { valid = s.valid; agree = s.agree; named = s.named; ready = s.ready }

abbrev empty_loop : EventLoop ℕ Poll
empty_loop = record {
  dispatcher = record { slots = free_slot ∷ []; max_fd = 0 };
  tasks = [];
  channels = [];
  callbacks = [];
  quit = false;
  wakeups = 0;
  closed = [];
}

none_registered : (fd : ℤ) → is_neg fd ≡ false → registered empty_loop.dispatcher fd ≡ false
unfolding find_slot
none_registered (pos n) h = refl
none_registered (negsuc n) h = absurd (ground (arith, h))

empty_loop-Sync : Sync poll_laws empty_loop
unfolding lookup
empty_loop-Sync = record {
  valid = poll_laws-IsValid empty_loop.dispatcher (inl refl, tt);
  agree = λ fd h.
      Agrees-eq poll_laws.exact _ _
        (poll_laws-registered empty_loop.dispatcher fd ∙ none_registered fd h);
  named = λ fd ch h. absurd (ground (arith, h));
  ready = tt;
}

abbrev insertion : Element ℕ
insertion = record { op = add_op; channel = some reader; fd = no_fd }

abbrev turns : List (Sync.Event poll_laws counting counting-Sync)
turns =
    Sync.posts false insertion
    ∷ Sync.processes
    ∷ Sync.reports (pos 4) 2
    ∷ Sync.posts false removal
    ∷ Sync.processes
    ∷ []

happen_all-Sync_example :
    Sync poll_laws (Sync.happen_all poll_laws counting counting-Sync turns empty_loop)
happen_all-Sync_example =
    happen_all-Sync poll_laws counting counting-Sync turns empty_loop
      (refl, (tt, (tt, (tt, (tt, tt))))) empty_loop-Sync

abbrev query : Bytes
query = codes "select 1 into Outfile 'x'"

is_read_only_statement-upper_example :
    is_read_only_statement (upper query) ≡ is_read_only_statement query
is_read_only_statement-upper_example = is_read_only_statement-upper query
