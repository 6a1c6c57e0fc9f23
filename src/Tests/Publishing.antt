-- ===== src/Tests/Publishing.antt =====
-- One question on its way through the queue, the publisher and the gate.
use tradermarket.Base.{ℕ, ◌+◌, ◌≡◌, ◌⊎◌, refl, false, none, some, [], ◌∷◌, ok, All}
use tradermarket.Publication.{
  Candidate, Queue, Row, awaiting_permit, permitted, submit, transition, transition_if, marked,
  new_row,
}
use tradermarket.Publication.Server.{Gate, grant, serve, serve_all, serve_tick}
use tradermarket.Publication.Publisher.{
  Catalog, Chain, prepare, publish, reconcile_all, publish_all, prepare_next, publisher_tick,
}
use tradermarket.Publication.Rows.{IsWell}
use tradermarket.Publication.Rows.Runs.{
  Steps, stays, goes, submits, Steps-trans, Steps-IsWell, serve_tick-Steps, publisher_tick-Steps,
}
use tradermarket.Publication.Sending.{Sent, publish-Sent}

abbrev candidate : Candidate
candidate = record {
  slot_index = none;
  template_id = 4;
  params = 10;
  announce_delay = none;
  restricted = none;
  question = 70;
  stream_url = none;
  image_url = none;
}

abbrev empty : Queue
empty = record { room_id = 1; next_id = 1; rows = [] }

abbrev catalog : Catalog
catalog = record {
  rule_of = λ t. some (record { winner_reward_bps = 100; build_condition = λ p. ok (p + 1) });
  min_announce_delay = 60;
  max_permit_attempts = 3;
  empty_text = 0;
}

-- A gate that grants, and counts its nonces
abbrev gate : Gate ℕ
gate = record {
  slot_count = λ n. ok 2;
  request_permit = λ n q. (
    n + 1,
    ok (
        grant
          (record {
            nonce = n;
            slot_index = q.slot_index;
            expires_at = 900;
            condition_hash = q.condition_document + 5;
          })
          33 44),
  );
}

-- A chain that has two slots and takes every submission
abbrev chain : Chain ℕ
chain = record {
  slot_count = some (λ n. some 2);
  used_nonce = some (λ n k. some false);
  market_for_condition_hash = none;
  publish_slot = λ n q p s r. (n + 1, ok 99);
}

abbrev asked : Queue
asked = record { room_id = 1; next_id = 2; rows = new_row empty candidate ∷ [] }

-- The row that the publisher has prepared
abbrev prepared : Row
prepared = record (new_row empty candidate) {
  status = awaiting_permit;
  request = some (record {
    template_id = 4;
    template_params_hash = none;
    condition_hash = none;
    announce_delay = 60;
    winner_reward_bps = 100;
    question = 70;
    stream_url = 0;
    image_url = 0;
  });
  condition_document = some 11;
}

abbrev waiting : Queue
waiting = record { room_id = 1; next_id = 2; rows = prepared ∷ [] }

prepares_row : publisher_tick catalog chain 0 5000 asked ≡ some (0, waiting)
unfolding publisher_tick reconcile_all publish_all prepare_next prepare transition marked
prepares_row = refl

-- The row that the gate has signed
abbrev signed_row : Row
signed_row = record prepared {
  status = permitted;
  request = some (record {
    template_id = 4;
    template_params_hash = some 44;
    condition_hash = some 16;
    announce_delay = 60;
    winner_reward_bps = 100;
    question = 70;
    stream_url = 0;
    image_url = 0;
  });
  permit = some (record { nonce = 7; slot_index = 2; expires_at = 900; condition_hash = 16 });
  signature = some 33;
}

abbrev signed_queue : Queue
signed_queue = record { room_id = 1; next_id = 2; rows = signed_row ∷ [] }

signs : serve_tick gate 7 5 5000 waiting ≡ some (8, signed_queue)
unfolding serve_tick serve_all serve transition_if transition marked
signs = refl

publisher_tick-Steps_example : Steps gate catalog chain asked waiting
publisher_tick-Steps_example = publisher_tick-Steps gate catalog chain 0 5000 asked prepares_row

asks : Steps gate catalog chain empty asked
unfolding submit
asks = goes (submits candidate) stays

run : Steps gate catalog chain empty signed_queue
run = Steps-trans gate catalog chain asks (
    Steps-trans gate catalog chain
      (publisher_tick-Steps gate catalog chain 0 5000 asked prepares_row)
      (serve_tick-Steps gate catalog chain 7 5 5000 waiting signs))

Steps-IsWell_example : All IsWell (signed_row ∷ [])
Steps-IsWell_example = Steps-IsWell gate catalog chain run tt

publishes_row : (publish catalog chain 0 5000 signed_row).0 ≡ 1
unfolding publish
publishes_row = refl

publish-Sent_example :
    ((publish catalog chain 0 5000 signed_row).0 ≡ 0)
    ⊎ Sent chain 0 5 signed_row (publish catalog chain 0 5000 signed_row).0
publish-Sent_example = publish-Sent catalog chain 0 5000 signed_row
