-- ===== src/Pipe/Tests.antt =====
-- pipe.cpp at concrete values.
use zmq.Base.{◌*◌, ◌≤◌, ◌<◌, ◌≡◌, ◌≢◌, ◌↔◌, refl, arith, false, none, some, [], ◌∷◌}
use zmq.Base.Int.{pos, pos_part}
use zmq.Msg
use zmq.Msg.{Msg, init_content, init_delimiter, set_flags, is_delimiter, is_credential}
use zmq.Ypipe
use zmq.Ypipe.{Ypipe, fresh}
use zmq.Ypipe.Laws.{IsValid, fresh-IsValid, write-IsValid, flush-IsValid}
use zmq.Ypipe.Refine.{view}
use zmq.Pipe.{read_payload, count_read, Pipe, Command, compute_lwm, pipepair, read, check_read}
use zmq.Pipe.Water.{compute_lwm_bounds, Reports, read-Reports}
use zmq.Pipe.Read.{first_payload, read_takes_first, reads_run_through}

-- The two ends of a pair whose watermark is 2 on both sides.
abbrev left_end : Pipe
left_end = (pipepair (pos 2) (pos 2)).0

-- A first part, a last part, and a credential.
abbrev part : Msg
part = set_flags (init_content (1 ∷ 2 ∷ [])) Msg.more

abbrev last_part : Msg
last_part = init_content (3 ∷ [])

abbrev token : Msg
token = set_flags (init_content (9 ∷ [])) Msg.credential

-- What a reader finds when a credential and a message were flushed.
abbrev filled : Ypipe Msg
filled = (Ypipe.flush (Ypipe.write (Ypipe.write (fresh Msg) token false) last_part false)).1

abbrev reader : Pipe
reader = record left_end { in_pipe = filled }

compute_lwm_bounds_example :
    let lwm = pos_part (compute_lwm (pos 1000)) in
    (0 < lwm) × (lwm ≤ 1000) × (1000 ≤ 2 * lwm) × ((lwm < 1000) ↔ (2 ≤ 1000))
compute_lwm_bounds_example = compute_lwm_bounds 1000 (omega arith) (omega arith)

filled-IsValid : IsValid filled
filled-IsValid = flush-IsValid (Ypipe.write (Ypipe.write (fresh Msg) token false) last_part false) (
    write-IsValid (Ypipe.write (fresh Msg) token false) last_part false
      (write-IsValid (fresh Msg) token false fresh-IsValid))

-- The reader after its call.
abbrev after_read : Pipe
after_read = record reader {
  in_pipe = record filled { queue = []; front = 2; r = some 2; c = some 2 };
  msgs_read = 1;
  sent = Command.activate_write 1 ∷ [];
}

read-reader : read reader ≡ some (some last_part, after_read)
unfolding read read_payload count_read pipepair Ypipe.write Ypipe.flush Ypipe.read Ypipe.check_read
read-reader = refl

read_takes_first_example :
    ((some last_part, view after_read.in_pipe)
      ≡ first_payload (view reader.in_pipe) (view reader.in_pipe).readable)
    × (is_delimiter last_part ≡ false)
    × (is_credential last_part ≡ false)
read_takes_first_example = read_takes_first reader after_read last_part filled-IsValid read-reader

reads_run_through_example : (read reader ≢ none) × (check_read reader ≢ none)
reads_run_through_example = reads_run_through reader filled-IsValid

reader-Reports : Reports 1 reader
unfolding pipepair
reader-Reports = ground arith

read-Reports_example : Reports 1 after_read
unfolding pipepair
read-Reports_example =
    read-Reports 1 reader after_read (some last_part) (omega arith) (omega arith) read-reader
      reader-Reports

-- A writer that was stopped at its limit of 2, and a reader that has read both messages.
abbrev stopped : Pipe
stopped = record left_end { msgs_written = 2; out_active = false }

abbrev caught_up : Pipe
caught_up = record left_end { msgs_read = 2; sent = Command.activate_write 2 ∷ [] }
