-- ===== src/NodePipeline/Tests.antt =====
-- A node commits the block that it has proposed, in a concrete run.
use mathlib.Core.List.{Memᴰ}
use junca_social_ecosystem_c.Common.{
  ℕ, ◌<◌, ◌≢◌, lower, ne_of_beq, ◌≡◌, [], ◌∷◌, Result, ok, refl, inl, some, nat_eq, list_eq,
}
use junca_social_ecosystem_c.Samples.{or_else, or_else-ok}
use junca_social_ecosystem_c.ProtocolKernel.Types.{
  KernelError, TransactionEnvelope, BlockTransition,
}
use junca_social_ecosystem_c.ProtocolKernel.Execution.{execute_block, compute_state_root}
use junca_social_ecosystem_c.StateStore.Types.{normalize}
use junca_social_ecosystem_c.NodePipeline.Kernel.{execute_block-Normal}
use junca_social_ecosystem_c.StateStore.Codec.{codec, codec_loads, codec-Documented}
use junca_social_ecosystem_c.NodePipeline.Commits.{Commits, proposal-Commits}
use junca_social_ecosystem_c.NodePipeline.Replay.{no_more, then_block, no_replay}
use junca_social_ecosystem_c.NodePipeline.Sample.{
  given, payment, no_proposal, opened, config, accept, node, proposal, certificate, to_genesis,
  fresh_made, proposal_ran, certificate-Certifies, certificate-Certified, certificate-Storable,
  unused, of_chain, pool-Synced,
}

proposal-Commits_example : Commits codec config codec_loads proposal certificate node
proposal-Commits_example =
    proposal-Commits codec codec_loads codec-Documented config accept 5 node fresh_made to_genesis
      (inl refl, tt) of_chain pool-Synced (some 1000) proposal_ran certificate certificate-Certifies
      certificate-Certified certificate-Storable unused

abbrev execution : Result KernelError BlockTransition
execution = execute_block codec config 8 0 given (payment ∷ []) accept

abbrev executed : BlockTransition
executed = or_else no_proposal.transition execution

execution_ran : execution ≡ ok executed
unfolding opened
execution_ran = or_else-ok no_proposal.transition execution refl

execute_block-Normal_example :
    (normalize executed.accounts ≡ ok executed.accounts)
    × (executed.state_root ≡ compute_state_root codec executed.accounts)
    × (executed.chain_id ≡ config.chain_id)
execute_block-Normal_example =
    execute_block-Normal codec config 8 0 given (payment ∷ []) accept execution_ran

abbrev payment_of : ℕ → TransactionEnvelope
payment_of nonce = record payment { nonce = nonce }

abbrev second_execution : Result KernelError BlockTransition
second_execution = execute_block codec config 8 21 executed.accounts (payment_of 1 ∷ []) accept

abbrev second : BlockTransition
second = or_else no_proposal.transition second_execution

second_ran : second_execution ≡ ok second
unfolding opened
second_ran = or_else-ok no_proposal.transition second_execution refl

abbrev third_execution : Result KernelError BlockTransition
third_execution = execute_block codec config 8 21 second.accounts (payment_of 2 ∷ []) accept

third_ran : third_execution ≡ ok (or_else no_proposal.transition third_execution)
unfolding opened
third_ran = or_else-ok no_proposal.transition third_execution refl

differ : lower payment.sender ≢ lower payment.recipient
unfolding lower
differ = ne_of_beq _ _ refl

no_replay_example : payment.nonce < (payment_of 2).nonce
no_replay_example =
    no_replay codec config 8 0 given (payment ∷ []) accept execution_ran payment (Memᴰ.head refl)
      differ (then_block 8 21 (payment_of 1 ∷ []) accept second second_ran no_more) 8 21
      (payment_of 2 ∷ []) accept third_ran (payment_of 2) (Memᴰ.head refl) refl
