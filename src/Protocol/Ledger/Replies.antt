-- ===== src/Protocol/Ledger/Replies.antt =====
-- The replies on the course on which the books grow: send_name and respond_to_pnrs of
-- src/nreq_responder.c.
use name_spread.Prelude.{
  ℕ, zero, suc, ◌+◌, ◌≡◌, refl, true, Option, some, ◌==◌, inl, inr, Bool-cases,
}
use name_spread.Text.{Str, codes, strstr, starts_with, space, after_last, fits}
use name_spread.Machine.Run.{need, ◌>>=◌}
use name_spread.Machine.Cfu.{Cfu}
use name_spread.Machine.System.{System}
use name_spread.Machine.Moves.{
  faulted, cut_off, Moves, Moves-from, Moves-bind, Moves-then, Moves-if, Moves-option, Moves-need,
  Moves-pure,
}
use name_spread.Logger.{log}
use name_spread.Network.{with_socket, with_packet, nrep_text, nrep_max_len}
use name_spread.Timers.{pnr}
use name_spread.LinkedList.{load}
use name_spread.Pnr.{answer, respond_loop, respond_to_pnrs}
use name_spread.Responder.{send_name}
use name_spread.Protocol.Frame.{parse_addr-Moves}
use name_spread.Protocol.Ledger.{begun, replied, opened, heard}
use name_spread.LinkedList.Calm.{load-Moves}
use name_spread.Protocol.Loose.{loose-Slack}
use name_spread.Protocol.Slack.{on_heap-Moves}
use name_spread.Protocol.Primitives.{Listening}
use name_spread.Protocol.Ledger.Posting.{
  ledger, ledger-Loose, log-Posts, onward, change-then, change,
}

module _ ⦃pnr_table : Cfu ℕ⦄ ⦃timer_table : Cfu Str⦄ ⦃sys : System⦄ where
  -- "NREP " stands at the start of the message that is made of a known name.
  nrep_text-is_reply :
      (dst_addr : Option Str) (name : Option Str)
      → strstr (nrep_text dst_addr name) (codes "NREP") ≡ true
  unfolding strstr starts_with
  nrep_text-is_reply dst_addr name = refl

  module _ {Asks Listens : Type 0} where
    module _ (l : Listens) where
      reply_sent :
          (to : ℕ) (text m : Str)
          → strstr text (codes "NREP") ≡ true
          → Moves
              (ledger Asks Listens)
              (λ w. log m (record (with_packet to text w) { total_nreps = w.total_nreps + 1 }))
      reply_sent to text m is_reply =
          change-then (λ w. record (with_packet to text w) { total_nreps = w.total_nreps + 1 })
            (log m) (λ w. replied to text is_reply l begun) (log-Posts m)

      send_name-Posts :
          (requester : ℕ) (dst_addr : Option Str) (name : Str)
          → Moves (ledger Asks Listens) (send_name requester dst_addr name)
      unfolding send_name
      send_name-Posts requester dst_addr name =
          elim (Bool-cases (fits (sys.array_room nrep_max_len) (nrep_text dst_addr (some name)))) [
            | inl fit ↦ rw fit (reply_sent requester _ _ (nrep_text-is_reply dst_addr (some name)))
            | inr long ↦ rw long (record { at = λ b w good. faulted })
          ]

      answer-Posts :
          (to : ℕ) (text : Str) (r : Option Str)
          → strstr text (codes "NREP") ≡ true
          → Moves (ledger Asks Listens) (answer to text r)
      unfolding answer
      answer-Posts to text r is_reply =
          Moves-bind (ledger Asks Listens) _ _
            (parse_addr-Moves (ledger Asks Listens) (ledger-Loose Asks Listens).permits r to _)
            λ to'.
              change-then (λ w. record (with_packet to' text w) { total_nreps = w.total_nreps + 1 })
                (need (after_last space text) >>= _) (λ w. replied to' text is_reply l begun)
                (Moves-bind (ledger Asks Listens) _ _
                  (Moves-need (ledger Asks Listens) (after_last space text))
                  λ name.
                    Moves-then (ledger Asks Listens) _ _ (log-Posts _)
                      (Moves-pure (ledger Asks Listens) to'))

      respond_loop-Posts :
          (k p to : ℕ) (text : Str)
          → strstr text (codes "NREP") ≡ true
          → Moves (ledger Asks Listens) (respond_loop k p to text)
      unfolding respond_loop
      respond_loop-Posts zero p to text is_reply = record { at = λ b w good. cut_off tt }
      respond_loop-Posts (suc k) p to text is_reply =
          Moves-if (ledger Asks Listens) (p == 0) _ _ (Moves-pure (ledger Asks Listens) tt) (
            Moves-bind (ledger Asks Listens) _ _
              (on_heap-Moves _ (loose-Slack _ (ledger-Loose Asks Listens)) (load p) (load-Moves p))
              λ n.
                Moves-option (ledger Asks Listens) n.val _ _
                  (respond_loop-Posts k n.next to text is_reply)
                  λ r.
                    Moves-bind (ledger Asks Listens) _ _ (answer-Posts to text (some r) is_reply)
                      λ to'. respond_loop-Posts k n.next to' text is_reply)

      respond_to_pnrs-Posts :
          (dst_addr : Option Str) (text : Str)
          → strstr text (codes "NREP") ≡ true
          → Moves (ledger Asks Listens) (respond_to_pnrs dst_addr text)
      unfolding respond_to_pnrs
      respond_to_pnrs-Posts dst_addr text is_reply = record {
        at = λ b w good.
            Moves-from (ledger Asks Listens) b (with_socket w) _
              (onward b w (with_socket w) good (opened l begun))
              (respond_loop-Posts w.heap.fresh (pnr dst_addr w) 0 text is_reply);
      }

      pub ledger-Listening : Listening (ledger Asks Listens)
      ledger-Listening = record {
        sends = send_name-Posts;
        counts = change _ (λ w. heard l begun);
        responds = respond_to_pnrs-Posts;
      }
