-- ===== src/Lib.antt =====
-- Gostore, an object store that speaks the S3 protocol (github.com/lojadopocket/gostore): a
-- verification of the parts of the server that decide who may do what, that keep the nodes of a
-- cluster apart, and that keep copies of the data in step.
--
-- A request is signed with an access key. The manager of internal/iam finds the secret and the
-- policies of that key, and internal/iam/policy evaluates the policies on the request. A request that
-- changes an object takes a lock for it, which on a cluster a quorum of the nodes grants
-- (internal/cluster); calls to a node that fails are held back by a breaker. The object itself is
-- kept by an erasure set (internal/erasure): its shards are placed over the disks, and a copy of its
-- metadata, on every disk, is committed by a rename and read by majority.
--
-- Base and its children hold what the parts share: Boolean tests with a ruleset for the arithmetic
-- tactics, lists, texts as lists of bytes, association lists for Go maps, and decisions. Base/BigEndian
-- is encoding/binary, Base/Digits the numbers of strconv, Base/Readers an io.Reader that is read to its
-- end.
--
-- Policy (internal/iam/policy/policy.go): statements and how each part of one matches. Policy/Wildcard
-- is the matcher of patterns, with its meaning as a relation in Policy/Wildcard/Matching;
-- Policy/Meaning says when a statement applies, and Policy/Decision what is allowed. Package net is a
-- record of functions, Host. A text is a list of bytes, where the matcher of patterns has runes.
--
-- Iam (internal/iam/iam.go, store.go): the state of the manager, LookupSecret, Identity, IsAllowed,
-- flush and applyPersisted. Iam/Accounts are the operations on users, policies, service accounts and
-- temporary credentials, Iam/Accounts/Integrity the sequences of calls of them; Iam/Granted says who is
-- granted a request. The function that reads a policy from its JSON text is a parameter, and the text
-- that is written to the store is left out. A call has the time and whether the store takes the write
-- as inputs.
--
-- Cluster (internal/cluster/dsync.go, breaker.go): Cluster/Token the lock tokens, Cluster/LockTable the
-- locks of one node, Cluster/Coordinator the requests to all nodes, Cluster/Breaker the breaker. The
-- clock, the tokens and what the network does to each call (answered, dropped, or served with the
-- answer lost) are inputs. The loop of grab runs over a list of attempts, one per round, and may run
-- out of them: what is proved of a lock that is held, or not, is of every such list. The loop of
-- FormatUint has 64 rounds, where a 64-bit number has at most 13 digits in base 36.
--
-- Cluster/Grid (internal/cluster/grid.go, and the errors of rpcserver.go) is the framed stream between
-- two nodes: frames, the loop that reads them and the calls that wait for an answer. A connection is
-- the list of its bytes, and the fuel of the loop is one more than their number, where each frame takes
-- at least one. Cluster/Rpc (rpcserver.go, remotedisk.go) is what the server makes of a call of a disk
-- and what the client makes of the answer, and Cluster/Rpc/Dial when a connection is made and what
-- counts for the breaker. JSON is a parameter that reads texts of valid UTF-8 back as it wrote them
-- (Base/Utf8 says which these are), and so is the disk.
--
-- Sse (internal/sse/sse.go): the readers that encrypt and decrypt, chunk by chunk, and the read of a
-- range. AES-GCM is a parameter, of which the size of a sealed chunk is used and that it opens again.
--
-- Auth/Chunked (internal/auth/chunked.go): the reader of a body in signed chunks. The signature of a
-- chunk is a parameter, a body ends with io.EOF, and the spaces that are trimmed are the ASCII ones.
--
-- Erasure (internal/erasure/erasure.go, xlmeta.go, set.go, and the disk of internal/storage/local.go):
-- Erasure/Quorum the shape of a set, its quorums and the sizes of shards, Erasure/XlMeta the metadata
-- and the placement of shards, Erasure/ReadMeta the read of metadata by majority, Erasure/Commit the
-- commit of metadata. A disk is what it holds for one key, and what fails on it is an input. The hash
-- of a version and the order in which a Go map is read out are parameters.
--
-- Erasure/Versions (internal/erasure/versioning.go, with the names of names.go in Erasure/Names) is the
-- version log of one key, object lock, the versioned put and delete, and what a version id resolves to;
-- Erasure/Versions/Retention (lock.go) is the retention and the legal hold of a version.
-- Its state is what the set answers for the key, and the failures of a call are inputs.
--
-- Erasure/Config (internal/erasure/config.go) is the configuration, of which every disk of a pool keeps
-- a copy: the read by the content of most disks with its repair, the write and the delete. SHA-256 and
-- the order of a map are parameters, and that no repair of the key is under way is an input.
--
-- Erasure/Listing (internal/erasure/list.go) is the loop that makes a page of a listing, over the keys of
-- a bucket in their order. The pages that a client asks for may run out; how many are enough is proved.
--
-- Erasure/Buckets (internal/erasure/set.go, with the disk of internal/storage/local.go) is how a set
-- makes, deletes and finds a bucket, by quorums of the disks.
--
-- Erasure/Mrf (internal/erasure/mrf.go) is the queue of objects that a write did not bring to every disk.
--
-- Api (internal/api): Api/ObjCache (objcache.go) is the cache of small objects; the loop that trims it
-- runs for as many rounds as there are entries, each of which takes one.
--
-- Numbers are natural numbers. Counts and times of the source are far from the ends of their machine
-- integers, except the tokens, whose overflow is written out, and the hash of a key, which is taken
-- modulo 2 ^ 32, and the counters of the cache.
--
-- Not modelled: HTTP, the handshake of a stream between nodes and the calls of a disk that stream, the
-- signature of a request, the Reed-Solomon code, ciphers, JSON, files and directories other than those
-- of one key, and goroutines other than as the inputs above; of the rest of the server, the listing of
-- versions and the walk over the keys, multipart uploads, healing, the scanner, the file system backend and the console.
pub mod Base
pub mod Policy
pub mod Iam
pub mod Cluster
pub mod Erasure
pub mod Api
pub mod Sse
pub mod Auth
