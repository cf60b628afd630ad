-- ===== src/Protocol/Replying.antt =====
-- What asks and what listens, on a course of Protocol.Slack on which what happens on the network does
-- not matter.
use name_spread.Prelude.{ℕ, zero, suc, ◌==◌, refl, Option, some}
use name_spread.Text.{Str}
use name_spread.Machine.Cfu.{Cfu}
use name_spread.Machine.System.{System}
use name_spread.Machine.World.{World}
use name_spread.Machine.Moves.{
  cut_off, Course, Moves, Moves-bind, Moves-if, Moves-option, Moves-pure,
}
use name_spread.LinkedList.{load}
use name_spread.LinkedList.Calm.{load-Moves}
use name_spread.Network.{with_socket}
use name_spread.Timers.{pnr}
use name_spread.Pnr.{respond_loop, respond_to_pnrs}
use name_spread.Protocol.{Allows}
use name_spread.Protocol.Frame.{request_name-Moves, table_modify-Moves}
use name_spread.Protocol.Walks.{answer-Moves}
use name_spread.Protocol.Primitives.{Asking, Listening, send_name-Moves}
use name_spread.Protocol.Slack.{Slack, on_heap-Moves}

module _ ⦃pnr_table : Cfu ℕ⦄ ⦃timer_table : Cfu Str⦄ ⦃sys : System⦄ where
  module _ (c : Course World) (slack : Slack c) (same : Allows c) where
    respond_loop-Moves : (k p to : ℕ) (text : Str) → Moves c (respond_loop k p to text)
    unfolding respond_loop
    respond_loop-Moves zero p to text = record { at = λ g w good. cut_off slack.cuts }
    respond_loop-Moves (suc k) p to text = Moves-if c (p == 0) _ _ (Moves-pure c tt) (
        Moves-bind c _ _ (on_heap-Moves c slack (load p) (load-Moves p)) λ n.
          Moves-option c n.val _ _ (respond_loop-Moves k n.next to text) λ r.
            Moves-bind c _ _ (answer-Moves c slack.permits same to text (some r))
              λ to'. respond_loop-Moves k n.next to' text)

    respond_to_pnrs-Moves :
        (dst_addr : Option Str) (text : Str) → Moves c (respond_to_pnrs dst_addr text)
    unfolding respond_to_pnrs
    respond_to_pnrs-Moves dst_addr text = record {
      at = λ g w good.
          (respond_loop-Moves w.heap.fresh (pnr dst_addr w) 0 text).at g (with_socket w)
            (same g w (with_socket w) refl good);
    }

    pub slack-Asking : Asking c
    slack-Asking = request_name-Moves c slack.permits same

    pub slack-Listening : Listening c
    slack-Listening = record {
      sends = send_name-Moves c slack.permits same;
      counts = table_modify-Moves c slack.permits same _ (λ w. refl);
      responds = λ dst_addr text is_reply. respond_to_pnrs-Moves dst_addr text;
    }
