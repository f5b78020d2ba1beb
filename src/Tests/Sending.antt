-- ===== src/Tests/Sending.antt =====
-- A response of three bytes and a file of two.
use sy_server.Base.{◌≡◌, refl, true, false, some, [], ◌∷◌, pos, codes, arith}
use sy_server.Buffer.{accepted}
use sy_server.Connection.{front}
use sy_server.Util.{Code, min}
use sy_server.Handlers.Sending.{Sender, Answers, FileAnswer, moved, handle_response}
use sy_server.Handlers.Pending.{IsSending}
use sy_server.Handlers.Taken.{all_taken}
use sy_server.Handlers.Responded.{Responded, Whole, handle_response-Responded}
use sy_server.Handlers.Completes.{handle_response-completes}
use sy_server.Tests.Data.{fresh, other, holding}

abbrev sender : Sender
sender = record {
  connection = record {
    fd = 5;
    side = front;
    watch_in = false;
    watch_out = true;
    r = 1;
    active_time = 0;
    heap_idx = 1;
  };
  request = record (fresh 0) {
    sb = other 3;
    resource_fd = pos 7;
    resource_len = 2;
    keep_alive = true;
  };
  file = codes "hi";
  out = [];
}

sender-IsSending : IsSending sender
sender-IsSending = record {
  valid = omega arith;
  direct = refl;
  known_length = omega arith;
  not_done = refl;
  head_sent = λ e. cc;
}

-- The socket is full in the middle of the file.
abbrev first : Answers
first = record { sends = accepted 2 ∷ accepted 5 ∷ []; sendfiles = [] }

abbrev blocked : Answers
blocked = record { sends = []; sendfiles = moved 0 ∷ FileAnswer.would_block ∷ [] }

abbrev free : Answers
free = record { sends = []; sendfiles = moved 0 ∷ moved 4 ∷ moved 4 ∷ [] }

not_all_taken : all_taken first blocked sender ≡ false
unfolding min
not_all_taken = refl

handle_response-Responded_example :
    (code : Code) × (t : Sender) × (handle_response (first ∷ blocked ∷ []) (holding []) sender
      ≡ some (code, t))
    × Responded (all_taken first blocked sender) (holding []) sender code t
handle_response-Responded_example =
    handle_response-Responded first blocked [] (holding []) sender sender-IsSending

handle_response-completes_example :
    (code : Code) × (t : Sender) × (handle_response (first ∷ free ∷ []) (holding []) sender
      ≡ some (code, t))
    × Whole (holding []) sender code t
handle_response-completes_example =
    handle_response-completes first free [] (holding []) sender sender-IsSending refl (omega arith)
      refl (omega arith)
