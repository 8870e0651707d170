-- ===== src/Lib.antt =====
-- A model of the core of argentum-core, a service that keeps karma and action trails for agents,
-- and the theorems about it.
--
-- The program has two databases and the handlers of one HTTP service over them.
-- argentum.py takes actions, attestations, reports and disputes, and keeps karma; each of its
-- handlers also leaves a trail through mycelium_trails.py, which keeps the trails, the limits on
-- them, prepaid accounts and the chain of delegations between trails. The batch anchor of
-- plugins/agt_evidence_anchor/merkle.py commits to many action references by one root.
--
-- Base has the shared names, tests and list functions; Sql has the statements of SQLite that the
-- program uses, over a table as the list of its rows in the order of insertion.
-- Bytes has byte strings, their order, hexadecimal text as `bytes.fromhex` reads it and
-- `bytes.hex` writes it, and SHA-256 as a parameter: a function with digests of 32 bytes.
--
-- Json has the values of Python that are JSON, with a dict as the list of its entries, and
-- Json.Equal their `==`; Utf8 has the encodings of text. Jcs is jcs.py: `canonicalize`,
-- `ecma_number_string`, `jcs_dumps` and `jcs_bytes` have their source's names, `text_of` is
-- `_encode`. A float is given by what `repr` shows of it. `digits` takes a number above the one it
-- prints as fuel. Jcs.Numbers to Jcs.Order have the lemmas on what is written.
--
-- TrailHead is plugins/agt_evidence_anchor/trail_head.py: the producer in TrailHead itself, and
-- `verify_trail` in TrailHead.Verify and TrailHead.Decide, one function for each of its checks. A
-- function that raises returns `none`, `verify_trail` the outcome `raised`. What `fromisoformat`
-- reads is a parameter. TrailHead.Keys to TrailHead.Seal prove what its answers are worth.
-- TrailHead.Cadence is `verify_checkpoint_cadence`.
--
-- ActionRef is plugins/agt_evidence_anchor/action_ref.py: `validate_domain`, which returns the
-- fault it would raise, `jcs_encode`, which sorts by code point and prints as `json.dumps` does, `compute_action_ref`, `compute_action_ref_v2` and `action_ref_version`.
--
-- Merkle is plugins/agt_evidence_anchor/merkle.py: `build_merkle_tree`, `get_proof` and
-- `verify_inclusion` have their source's names; `check_refs`, `next_level` and `grow` are the
-- loops of the first. `grow` takes the number of leaves as fuel; a level of more than one node is
-- longer than the next, so that the loop ends with one node before the fuel does. Merkle.Levels to
-- Merkle.Sound have the lemmas on levels, digests and members.
--
-- Mycelium is mycelium_trails.py. Mycelium.Store has its tables as records; Mycelium.Trails has
-- `record_trail` and the updates of a trail, Mycelium.Payg the accounts, intents, replay nonces
-- and billing events, Mycelium.Chain the walk of `verify_chain` up the parents of a trail. The
-- walk takes one more than the number of rows as fuel, and never reads a row twice.
--
-- Mycelium.Anchor is a round of `_anchor_confirmation_poller` of argentum.py over the trails that
-- await their receipts; the node that is asked is a function, on which nothing is assumed.
--
-- Karma is the part of argentum.py that writes actions, attestations, karma, reports and disputes.
-- Karma.Store has the tables; Karma.Wisdom has `upsert_wisdom`; Karma.Actions `submit_action`;
-- Karma.Attest `attest_action` and the attestation that `payment_webhook` makes; Karma.Contest
-- `report_action`, `confirm_slash`, `open_dispute` and `kleros_ruling`. Karma.Steps makes one step
-- of each handler; Karma.Invariant and Karma.Calls prove what all of them keep; Karma.Slash,
-- Karma.Once and Karma.Dispute are about what a slash and a ruling lead to, Karma.Settled and
-- Karma.Stays have the lemmas on later calls.
--
-- Market is the part of argentum.py where agents offer trails as recipes that others execute and
-- rate: `register_trail`, `record_trail_execution`, `rate_trail_execution` and the tool
-- `execute_trail`. Market.Counts, Market.Kept and Market.Rated prove that its statistics are right.
--
-- External is the part of argentum.py that guards against replays: `external_trail`, which records
-- a trail of another implementation and awards karma for it, and `payg_webhook_lightning`, which
-- adds the credits that were paid for. Both use the nonces of Mycelium.Payg; External.Replay is
-- about any sequence of their calls.
--
-- Nexus is `nexus_trail` of argentum.py, which takes in receipts of another service: the domain and the
-- reference are checked with ActionRef and Jcs, a credit is taken with Mycelium.Payg and the trail
-- recorded with Mycelium.Trails. Nexus.Refund is about the credit.
--
-- A handler is a function from its request and the store to its answer and the store after it, on
-- every branch. The clock, the identifiers that `uuid4` draws, the verdict on a signature and the
-- count of marks that another service reports are arguments. An insert under a key that is taken
-- fails as SQLite does. Numbers are unbounded; karma is in tenths, weights in hundredths and
-- prices in thousandths, in which the constants of the program are whole; the rounding of floats is not
-- modelled, but for the sum of weights, SQLite's SUM, which is a parameter. Histories take the calls one
-- at a time. attest_action awaits the marks service between its check for an earlier attestation and
-- its INSERT, where another call can come in: `begin_attest` and `finish_attest` are its halves,
-- `attest_action` runs them without a call between, and Karma.Overlap is about two calls that
-- overlap. No other overlapping is covered.
--
-- Not modelled: the pages, dashboards and listings, which change nothing; notices to other
-- services; the poller of USDC payments and the calls of the chain; the examples of conformance
-- and the tests.
pub mod Base
pub mod Bytes
pub mod Json
pub mod Utf8
pub mod Jcs
pub mod Merkle
pub mod TrailHead
pub mod ActionRef
pub mod Sql
pub mod Mycelium
pub mod Karma
pub mod Market
pub mod External
pub mod Nexus
