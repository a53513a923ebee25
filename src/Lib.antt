-- ===== src/Lib.antt =====
-- scutedb, an embedded database in Go: a verification library of its storage layers.
--
-- The program's parts, from the bottom up, all under internal/:
-- - fileio reads and writes bytes of a file at an offset. Everything above reaches the disk through
--   its interface File.
-- - page lays a file out in pages of 4096 bytes with a header of 16, and grows it by whole pages.
-- - pagestore owns a file of pages: page 0 is the meta page, the others are handed out by Allocate
--   and given back by Free. What Free takes waits on a pending list until the next Checkpoint, which
--   writes a new free list to pages that the last checkpoint does not reach, and then the meta page.
-- - codec writes integers, bytes, strings and floats, and keys whose bytes compare as the values.
-- - nullbits, slots, nodepage, btree and naive (rows, slotted pages, index nodes and indexes) stand
--   beside the store.
--
-- Which file models what:
-- - Base: shared notation and lemmas. Base/Lists, Base/Bits, Base/Words, Base/Bytes (big-endian
--   numbers), Base/Splice (Go's copy into a slice, PutUint16 and PutUint32), Base/Assoc (Go's maps as
--   association lists), Base/Outcome (results), Base/State (fallible steps on a state).
-- - Codec/Varint, Codec/Value and Codec/Key: internal/codec/varint.go, value.go and key.go, one
--   function for each of the source's, under its name in lower case.
-- - Fileio: the interface File of internal/fileio/fileio.go as a record of functions on a file of any
--   type. Fileio/Touch says which pages a run of calls may have written, Fileio/Laws what a file does
--   that behaves, Fileio/Disk what it does in working order, Fileio/Held what of it a crash of the
--   machine keeps, and Fileio/Mem is such a file, in memory, which knows what it has synced.
-- - Page: internal/page/page.go. A page is the list of its bytes. Page/Sync says when a file is synced.
-- - Pagestore/Types, Pagestore/Format, Pagestore/Ops, Pagestore/Checkpoint and Pagestore/Create:
--   internal/pagestore/pagestore.go. A Store is a record of the source's fields; its file is passed
--   beside it, and an operation returns its result, the store and the file, on errors also.
--   Pagestore/Verify and Pagestore/Load are the way back from a file to a store, Create and Open behind
--   the opening of the path, and Verify.
-- - Nullbits/Logic and Nullbits/Bitmap: internal/nullbits/logic.go and nullbits.go; Slots:
--   internal/slots/slots.go. Nullbits/Laws, Slots/Layouts and Slots/Records have their laws.
-- - Nodepage: internal/nodepage/nodepage.go, a node being its page. Nodepage/Cells and Nodepage/Append
--   have the list of cells that a page stands for, Nodepage/Entries keys and rows, and
--   Nodepage/Searching the binary search; Nodepage/Validate is Validate, Nodepage/Spans the places of
--   cells, Nodepage/Validating what Validate promises and Nodepage/Accepted what it accepts.
-- - Btree: New, Get and Put of internal/btree/btree.go, and Btree/Delete: Delete of delete.go beside it.
--   A leaf has an address, which `next` of another leaf names. Btree/Shape, Btree/Children and
--   Btree/Repair have the shape of the tree as nodes are split, borrow and merge, Btree/Balanced and
--   Btree/Shrink what Put and Delete keep of it. The tree as a sorted map: Btree/Keys has the order of
--   keys, Btree/Items the keys, rows and separators of a tree from left to right and when one list of
--   them may stand for another, Btree/Separator where a separator may be put, Btree/Entries the sorted
--   list that serves as the specification, Btree/Sorting what it keeps, Btree/Index the binary searches,
--   Btree/Descent the way to a child, Btree/Leaves, Btree/Inserting and Btree/Splitting the insertion,
--   Btree/Moving, Btree/Mending and Btree/Deleting the deletion, Btree/Hits whether a key was there,
--   Btree/Map and Btree/Removal the operations of a whole tree, Btree/Refinement sequences of them and
--   Btree/Lookup what Get finds after each. The chain of leaves: Btree/Links, Btree/Linking,
--   Btree/Unlinking and Btree/Chain. Btree/Scan is Scan and its Iterator, with its proof in
--   Btree/Scanning, Btree/Reaching, Btree/Ranges and Btree/Scans; Btree/Validate is Validate, with
--   Btree/Checked and Btree/Passing for what it lets pass, Btree/Trusted, Btree/Inverting and
--   Btree/Trusting for what that is like; Btree/Measure has Order, Len and Height, Btree/Height how
--   high a tree may be, and Btree/Adapter is adapter.go. An iterator holds the leaf that its pointer names, so the tree may not change while
--   it is read.
-- - Pagestore/Sound is the invariant of an open store, with a module for each operation's proof.
--   Pagestore/Run has the histories of a store as relations, and what holds of all of them.
-- - Pagestore/Load has a module for each part of reading back, and for what a checkpoint leaves on the
--   disk, Pagestore/Load/Durable as a read finds it and Pagestore/Load/Synced as a crash leaves it, with
--   Pagestore/Load/Reopened for what load leaves;
--   Pagestore/Run/Recover and Pagestore/Run/Restart join them to the histories. Page/Disk has the pages of a file.
--
-- What stands behind File is the operating system and is no definition here: the operations take a
-- File as an argument, and may meet any error at any call. Only what a crash finds needs to know that
-- a write changes no byte outside the range it was given and that the other calls change none; this
-- is the record IsFile, and mem_file satisfies it. What is read back needs more of the file: IsDisk says
-- that a read inside the file returns what writes without error put there, and that no call makes the
-- file shorter; IsWilling, asked of the file that is opened after a crash, that no write or sync fails.
-- What a crash keeps is the record IsSyncing: a byte is held once a sync has returned no error on a file
-- of which no sync has failed, until a write to its range; a crash may change any other byte.
-- The directory's sync, SyncParent, is an argument of open_path and create_file. The number of bytes
-- that a Write reports is not looked at by any caller.
--
-- Numbers are natural numbers, with the width of the source's type written out where the source may
-- wrap around: uint64s in codec, uint32s in what pagestore writes. Page ids do not wrap, since
-- MaxPages bounds them; the count of free pages and the checkpoint's number are cut to 32 bits.
-- An int64 is its two's complement pattern, and a float64 its bits.
--
-- Loops are recursion on a list where the source walks one, and otherwise on a number of rounds:
-- - AppendUvarint and UvarintLen get as many rounds as the number itself, which each round halves.
-- - Grow gets as many rounds as pages to add, and each round adds one at least.
-- - Checkpoint's search for list pages gets pagesFor of its first count of entries; a round adds a
--   page and never an entry. The error `stuck` of the model stands for a search out of rounds.
-- - readFreeList gets one round more than pages handed out; each round but the last puts a new page of
--   these on the map of those seen. `stuck` stands for a chain out of rounds here too.
-- - Next gets as many rounds as leaves to pass over empty ones.
-- - sort.Search gets as many rounds as keys, and each halves the interval.
--
-- Not modelled: Dump of the B+-tree in memory, the index that naive keeps in a log file,
-- the texts of errors and of nodes (describe.go), opening files by their paths and syncing
-- directories, the goroutines of a caller (no package starts one or locks), and the program under
-- cmd/, which prints.
pub mod Base
pub mod Btree
pub mod Codec
pub mod Fileio
pub mod Nodepage
pub mod Nullbits
pub mod Page
pub mod Pagestore
pub mod Slots
