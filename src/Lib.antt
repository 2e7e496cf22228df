-- ===== src/Lib.antt =====
-- A model of the blockchain node of this repository (package bcws) and what it guarantees.
--
-- The program is a node of a small proof-of-work blockchain. Peers say hello to each other and
-- exchange framed messages over TCP; a gossip layer relays messages that a handler accepts; a search
-- layer asks all peers for a value; a pool collects transactions; the state transition function
-- builds and applies blocks; the fork manager collects the blocks of all branches and asks the
-- network for missing parents; the canonicaliser moves the node to the highest branch and stores the
-- state behind each block of it.
--
-- Files and the code that they model:
--   Prelude        Booleans, lists, exceptions (Results), methods with a state (Actions), Python's
--                  integers (Int) and dicts (Dict), numbers in four bytes (Words).
--   Text           hex and fromhex, str and int, split: the text functions of Python that the code
--                  calls, with their round trips.
--   Crypto         bcws/crypto.py; ecdsa and hashlib are the parameter `Crypto`, and their
--                  documented laws the record `CryptoLaws`.
--   Types          bcws/blockchain_types.py: Transaction, Block, to_json (Json); RoundTrip, Parsed and
--                  Signing hold the theorems.
--   Storage        class MemoryStorage of bcws/storage.py; Files is StorageMaster and DiskStorage over
--                  an interface of the operating system's files, Refinement compares the two.
--   Mempool        class Mempool of bcws/blockchain.py; Invariant, Expiry.
--   Chain          class BlockchainState (State) and class Blockchain (State, Blocks) of
--                  bcws/blockchain.py; Transfer specifies a transaction, Refusal one that is
--                  not accepted, Runs a sequence of them, Execution the next block, Supply the sum of
--                  the balances, Building the block that is built, Replay the life of a transaction.
--   Disk           to_json, from_json, save_to_disk and load_from_disk of BlockchainState; the json
--                  package is the parameter `Json`.
--   Fork           class ForkManager of bcws/blockchain.py; Links and Confirm state when the storage
--                  is closed under parents, Walk and Growth follow the two loops, Soundness, Memory,
--                  Acceptance, Termination and Arrival hold the theorems on the handlers.
--   Canonical      class ChainCanonicaliser of bcws/blockchain.py; Latest, Plan.
--   Node           _make_genesis and class BlockchainNode of bcws/blockchain.py; Genesis; Mining
--                  and Producer are a round of the block producer, Mined is about what it finds;
--                  Wallet is send_transaction with the actions of bcws/__main__.py that use it.
--   Network        bcws/network.py, and recv_exact of bcws/utils.py: Address, Socket (what the calls of
--                  recv meet), Server (TcpConnection, TcpServer); Reading and Framing hold the
--                  theorems on the bytes of messages, Closing on a disconnect.
--   P2p            bcws/p2p.py: PeerList is the format of a list of addresses, Peers the tables of
--                  class P2PNode, Node its messages, handlers and loop over Messaging; Tables, Reach
--                  and Runs are about the tables, Broadcast, Shrinking, Hello and Handshake about
--                  what a broadcast, the loop, a hello and two nodes do.
--   Search         bcws/search.py over Gossip; Answers.
--   Gossip         bcws/gossip.py; Once, Expiry.
--   Messaging      bcws/messaging.py: the class Messaging; Format is the class MessagingMessage,
--                  Requests, Exchange and Timeouts hold the theorems on requests, Keeping what its
--                  methods keep of the state of the handlers.
--   Examples       a toy cryptography, and the theorems at concrete inputs.
--
-- A method of a Python object is an action: it takes the object and gives back a result or an
-- exception, and beside it the object as it is then, also when it raised. A dict is the list of its
-- items. A method that writes the hash of a block gives the block back. A time is a number of
-- microseconds and an argument, and so is a random id. What a method hands to the layer below (a
-- broadcast, a query, a message) is put on a list. A handler that another module registers is a
-- parameter.
--
-- Bounds and fuel. The nonces and balances are unbounded integers, as in Python. The loops over lists
-- are structural. recv_exact takes as much fuel as bytes are wanted, since each round brings one at
-- least. The other `while` loops of the fork manager, of the canonicaliser and of the search for a
-- proof of work take fuel; a run that is cut off ends in the exception `out_of_fuel`, which the
-- program does not have. For the fork manager the fuel with which the walk for a missing parent ends
-- is enough for the loop that confirms the ancestors, and the theorems that a storage stays closed
-- hold for every fuel. Fuel above the number of ancestors that the walk passes is enough for both;
-- that number is a hypothesis, since the code does not make the numbers of known blocks decrease
-- along the walk. No bound is given for the search for a proof of work.
--
-- What is not modelled: text is ASCII, and the limit of int to 4300 digits is left out. Threads, locks
-- and their timing are left out: each handler and each round of a loop runs alone. A connection is
-- known by its address, by which TcpConnection.__eq__ compares, except in Network. The sockets of the
-- operating system behind recv and sendall, the rest of the command line (bcws/__main__.py), the
-- monitoring loop network_discovery_loop of bcws/p2p.py and the tools beside the package (snip.py,
-- previewer.py) are left out. So are log messages.
pub mod Prelude
pub mod Text
pub mod Crypto
pub mod Types
pub mod Storage
pub mod Chain
pub mod Mempool
pub mod Fork
pub mod Disk
pub mod Canonical
pub mod Node
pub mod Network
pub mod P2p
pub mod Gossip
pub mod Messaging
pub mod Search
mod Examples
