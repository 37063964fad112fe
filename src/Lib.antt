-- ===== src/Lib.antt =====
-- The frontend of the NNS dapp: its stores of proposals, neurons and votes, the queue that orders
-- query and update responses, the services that load proposals and register votes, and the rules on
-- neurons of the NNS and of SNS projects.
--
-- The files named below are modelled by functions on explicit state: a Svelte store is a record or
-- a list, an operation returns the new state, a `throw` is a value of the type `Outcome` and
-- leaves the old state in place. Bigints that the code never makes negative are natural numbers;
-- `undefined` is `none`; strings are strings. In an asynchronous function of a service what was
-- written before a throw stays written. Types of the npm packages (@dfinity/nns and others) are
-- parameters with the accessors that the code uses, or records of the fields it reads.
--
-- Parts and files:
-- Common and below: arrays, sets, plain objects, equality, results of calls that may throw.
-- QueuedStore: frontend/src/lib/stores/queued-store.ts. `Store` holds the closure's variables,
-- `add_mutation` is addMutation, `drain` its while loop, `replay` the loop of updateExposedData.
-- QueuedStore/Queue has facts on queues, QueuedStore/Log the invariant that ties a store to its log,
-- QueuedStore/Order the consequences for users, QueuedStore/Invariant invariants of the data.
-- QueryAndUpdate: frontend/src/lib/services/utils.services.ts, one call of queryAndUpdate with its
-- replies as events.
-- Proposals: frontend/src/lib/utils/proposals.utils.ts (merging by id); Proposals/Store:
-- frontend/src/lib/stores/proposals.store.ts, a client of QueuedStore.
-- Neurons: frontend/src/lib/stores/neurons.store.ts.
-- VoteRegistration: frontend/src/lib/stores/vote-registration.store.ts, the votes in progress.
-- VotingNeurons: the same file's store of neurons that are selected to vote, with the functions of
-- frontend/src/lib/utils/proposals.utils.ts on it; VotingNeurons/Tracking follows one neuron through
-- the calls of the store.
-- Transactions: frontend/src/lib/stores/icp-transactions.store.ts,
-- frontend/src/lib/stores/icrc-transactions.store.ts and getUniqueTransactions of
-- frontend/src/lib/utils/transactions.utils.ts.
-- Sorting: frontend/src/lib/utils/sort.utils.ts, comparators and the stable sort; Sorting/Order has
-- their laws, Sorting/Sorted those of the sort.
-- NnsNeurons: frontend/src/lib/utils/neuron.utils.ts, stakes, control and order of neurons;
-- NnsNeurons/Following has the followees by neuron, NnsNeurons/Amounts maturity and valid
-- stakes, NnsNeurons/Rewards the loss of rewards, splitting and topping up.
-- Merging: frontend/src/lib/utils/neuron.utils.ts, which neurons can be merged, and the script of
-- frontend/src/lib/components/neurons/SelectNeuronsToMerge.svelte, whose clicks select them.
-- Polling: frontend/src/lib/utils/utils.ts, `poll` and its registry of polls in progress; the calls'
-- results and the cancellations are given by an environment. Polling/Attempts is about its loop,
-- Polling/Cleanup about the whole function.
-- Navigation: frontend/src/lib/utils/proposals.utils.ts, the order of proposals, and the script of
-- frontend/src/lib/components/proposal-detail/ProposalNavigation.svelte.
-- TokensTable: frontend/src/lib/utils/tokens-table.utils.ts, the order of the table of tokens.
-- SnsStores: frontend/src/lib/stores/sns-proposals.store.ts,
-- frontend/src/lib/stores/sns-neurons.store.ts and frontend/src/lib/stores/checked-neurons.store.ts.
-- VoteRegistration/Managing: frontend/src/lib/services/vote-registration.services.ts, and
-- VoteRegistration/Nns: frontend/src/lib/services/nns-vote-registration.services.ts with
-- frontend/src/lib/stores/toasts.store.ts. An asynchronous function is an action on the registrations
-- and the toasts that resolves, rejects or stays pending; the library's store of toasts is the
-- interface `ToastStore`. VoteRegistration/Nns/Registered follows the calls as they arrive,
-- VoteRegistration/Nns/Outcomes states what a whole vote leaves. What follows the reloads of a vote is
-- left out: the store and the callback that get the reloaded proposal.
-- Actionable: frontend/src/lib/services/actionable-proposals.services.ts, the loop over the pages of
-- proposals; Actionable/Sns: frontend/src/lib/services/actionable-sns-proposals.services.ts with its
-- stores.
-- Hex: bytesToHexString of frontend/src/lib/utils/utils.ts and its inverse.
-- SnsNeurons: frontend/src/lib/utils/sns-neuron.utils.ts, by theme: state and dates
-- (SnsNeurons/Dissolving), permissions and hotkeys (SnsNeurons/Permissions), splitting, votes
-- (SnsNeurons/Voting) and memos of new neurons (SnsNeurons/Memos). That the
-- subaccounts of memos below 65536 are different is a hypothesis about the hash of @dfinity/sns.
-- SnsProposals: frontend/src/lib/utils/sns-proposals.utils.ts, decisions and the filter by types.
-- SnsSwap: frontend/src/lib/utils/projects.utils.ts and frontend/src/lib/stores/sns-tickets.store.ts,
-- which amounts may be committed to a swap, and the tickets of participations. SnsSwap/Tickets and
-- SnsSwap/Participation: frontend/src/lib/services/sns-sale.services.ts, the flows of a participation
-- as actions that return or throw; their polled calls run through `poll` of Polling.
-- SnsSwap/Participation/Payments and SnsSwap/Participation/Flows state what they leave.
-- IcpTransactions: frontend/src/lib/utils/icp-transactions.utils.ts, the rows of an account's
-- transactions; IcpTransactions/Balances compares them with the ledger.
-- NnsBallots: the ballots and the tally of a proposal of the NNS, from
-- frontend/src/lib/utils/proposals.utils.ts and frontend/src/lib/utils/neuron.utils.ts.
--
-- The stores use QueuedStore (Proposals/Store) and the merging functions (Proposals,
-- Transactions); NnsNeurons, Navigation and TokensTable use Sorting, Merging uses NnsNeurons. The
-- votes of VoteRegistration/Nns are recorded by VoteRegistration; Actionable uses the stores of
-- neurons and the order of Navigation, Actionable/Sns the stores of SnsStores.
--
-- All loops are structural recursions on the lists that the code walks, and that of `poll` on the
-- number of attempts that are left. The loop over pages has the five requests of the source as its
-- bound, that of nextMemo its 65536 memos. The decimal text of a number has the number itself as
-- fuel, since a number has no more digits than its value (Common/Text); the search for a text in
-- another one has its length; there is no other fuel. `sort` of arrays is insertion sort, which is
-- stable as the language demands.
--
-- Not modelled: rendering, i18n, network calls, local storage and the promises themselves.
pub mod Common
pub mod QueuedStore
pub mod QueryAndUpdate
pub mod Proposals
pub mod Neurons
pub mod VoteRegistration
pub mod VotingNeurons
pub mod Transactions
pub mod Sorting
pub mod NnsNeurons
pub mod Merging
pub mod Polling
pub mod Navigation
pub mod TokensTable
pub mod SnsStores
pub mod Actionable
pub mod Hex
pub mod SnsNeurons
pub mod SnsProposals
pub mod SnsSwap
pub mod IcpTransactions
pub mod NnsBallots
