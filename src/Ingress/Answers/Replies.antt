-- ===== src/Ingress/Answers/Replies.antt =====
-- worker/worker.go: what an answer does to its client.
use ipojknm.Prelude.{Option, none, some, ◌≡◌, ◌≢◌, refl, true}
use ipojknm.Prelude.Text.{GoString}
use ipojknm.Errors.{GoError, Outcome, ok, err, fault}
use ipojknm.Mc.Packet.{Packet, read_packet}
use ipojknm.Agents.{Dial}
use ipojknm.Backend.{BackendAction, BackendAnswer, ConnFunc, run_conn_func}
use ipojknm.Root.Client.{Client, close, receive, write_packet}
use ipojknm.Ingress.Answers.{Fate, left, echo, join_server, to_server, by_action, process_answer}

-- Where ProcessAnswer returns without a proxy, the client's connection is closed.
abbrev pub LeftClosed : Fate → Type 0
LeftClosed (left c) = c.closed ≡ true
LeftClosed _ = Unit {0}

echo_closes : (r : Outcome Packet × Client) → LeftClosed (echo r)
unfolding echo close
echo_closes (ok ping, c) = refl
echo_closes (err e, c) = refl
echo_closes (fault, c) = tt

to_server_closes :
    (dial : Dial) (header : Option GoError) (ans : BackendAnswer) (c : Client) (f : Option ConnFunc)
    → LeftClosed (to_server dial header ans c f)
unfolding to_server
to_server_closes dial header ans c none = tt
to_server_closes dial header ans c (some f) = after_dial (run_conn_func dial header f)
  where
    after_dial : (o : Outcome (Option GoString)) → LeftClosed (join_server ans c o)
    after_dial (ok announced) = unfold join_server in tt
    after_dial (err e) = unfold join_server close in refl
    after_dial fault = unfold join_server in tt

by_action_closes :
    (dial : Dial) (header : Option GoError) (ans : BackendAnswer) (c : Client)
    (action : BackendAction)
    → action ≢ BackendAction.error
    → LeftClosed (by_action dial header ans c action)
unfolding by_action close
by_action_closes dial header ans c BackendAction.error h = absurd (h refl)
by_action_closes dial header ans c BackendAction.proxy h =
    to_server_closes dial header ans c ans.server_conn_func
by_action_closes dial header ans c BackendAction.disconnect h = refl
by_action_closes dial header ans c BackendAction.send_status h =
    echo_closes (receive read_packet (write_packet ans.first_packet c).1)
by_action_closes dial header ans c BackendAction.close h = refl

-- Whatever a backend answers but the zero value of an action, and however dial, header and writes
-- fail, ProcessAnswer closes the client's connection, hands it to a proxy, or panics.
pub process_answer_closes :
    (dial : Dial) (header : Option GoError) (c : Client) (ans : BackendAnswer)
    → ans.action ≢ BackendAction.error
    → LeftClosed (process_answer dial header c ans)
unfolding process_answer
process_answer_closes dial header c ans h = by_action_closes dial header ans c ans.action h
