-- ===== src/Lib.antt =====
-- chatx5: a peer-to-peer chat over LAN, TCP and serial links, with a queue for peers that are away,
-- one-time offers of files over LAN HTTP, and folders that peers browse.
--
-- The parts, and the file or folder that models each (paths are from the repository's root):
--   * Hash: `normalize_hash` of chatx5/core/discovery.py and `is_hub_peer_hash` of
--     chatx5/core/messaging/peers.py, by which every other part compares peers.
--   * Scope: chatx5/utils/lan_scope.py, and the pinning of a contact's address by
--     `should_update_contact_ip` of chatx5/core/contacts.py.
--   * Offers: the table of chatx5/core/lan_transfer.py (Offers, with its calls as data in Offers/Calls),
--     the handler `handle_lan_transfer` of chatx5/web/rns_lifecycle.py that streams an offer and pops it,
--     and a round of `_watch_lan_http_send` of chatx5/core/messaging/transfer.py (Offers/Serve).
--   * Paths: `safe_basename`, `safe_path_under` and `safe_rel_path_under` of chatx5/utils/helpers.py, over
--     the functions of Python's `posixpath` that they call (Paths/Posix).
--   * Share: sessions and tokens of chatx5/web/share_browser.py, and the handlers of a download and of an
--     upload (Share/Handlers), which resolve the paths of a peer by Paths.
--   * Aliases: the maps between identity and destination hashes of chatx5/core/messaging/backend.py.
--   * Queue: chatx5/core/messaging/queue.py. Queue/Drain is `drain_queue`, Queue/Hub is
--     `drain_hub_group_queue` of chatx5/core/messaging/hub.py, which an exception of a send leaves. Entries
--     are matched to peers by Aliases.
--   * Contacts: hashes and normal form of chatx5/core/contacts.py.
--   * History: chatx5/web/history_store.py, the messages in memory and in the history file.
--   * Message: the dictionary form of a `ChatMessage` in chatx5/core/messaging/models.py.
--   * Ranges: `stream_file_response` of chatx5/utils/file_serve.py.
--   * Isolation: the interface filter of chatx5/core/transport_isolation.py.
--   * Probe: intervals, link quality and averages of chatx5/core/peer_probe.py.
--   * Targets: the address lists of chatx5/core/lan_targets.py. What chatx5/utils/platform.py answers on
--     interfaces is an argument.
--   * Failover: the order of transports and the preferred one of chatx5/core/messaging/failover.py, and
--     when a link is given up and a session connected again (Failover/Needs), with its waits (Failover/Timing). What
--     the code reads of settings, interfaces and links is a record, and families that it does not
--     know are one.
--   * Discovery: the table of peers of chatx5/core/discovery.py, with its index of hashes. Its operations
--     stand in Discovery (the index), Discovery/Removal, Discovery/Rows (which of two rows is better, which
--     may be stored), Discovery/Purge, Discovery/Probing, Discovery/Store (`_store_peer`), Discovery/Announce
--     and Discovery/Beacons, and Discovery/View (`get_peers`); Discovery/Reachable has all calls as data. What
--     an operation reads of the world, among it whether the serial link is up and the address of the scope,
--     is a record that is the same throughout the operation, and the calls of callbacks and of the registry
--     of UDP peers are collected in a list.
--   * Book: the rest of chatx5/core/contacts.py, over a directory of files: names (Book), merging
--     (Book/Merge), listing, searching and deleting (Book/Files), `save_contact` (Book/Save), the updates from
--     discovery (Book/Update), and contacts that have moved (Book/Moved). A file is a contact that could be parsed, or a text; a field of a contact
--     that is empty and one that is missing are the same.
--   * Prelude, Text and Dict: lists, numbers, texts and dictionaries as Python's.
--
-- Conventions. A text is the list of its code points; `lower` knows the ASCII letters and `strip` the
-- spaces of `is_space`. Times and sizes are natural numbers, where the code has floats. A table that
-- the code guards by a lock is passed from call to call, a call being one step. The clock, the random
-- ids, the file system, and what a send or a write answers are parameters: a write of the queue
-- or of the history is complete, or the file is not opened, or it is cut off and cannot be read
-- (Prelude/Files). `os.path` is POSIX.
--
-- Bounds. `send_chunks` and `send_range` run on fuel; more fuel than there are bytes left is enough,
-- since each round but the last takes a byte at least. `absorb_all` runs on as much fuel as there are
-- contacts, and each round takes one at least (Book/Absorbed). Everything else is structural.
--
-- Not modelled: Reticulum links, sockets, timers, JSON files, Android and audio, which are calls of other
-- libraries; percentages and speeds that are only shown; in the queue, the choice of a link (an argument
-- says whether one is found), the predicate that two hashes are of one saved contact (a parameter), the
-- writes of the queue file by receipts in the middle of a pass, and entries that another thread adds
-- during a pass; the registration of peers with Reticulum and the log of discovery; in the history,
-- the view of one peer and the collection of its aliases.
pub mod Prelude
pub mod Text
pub mod Dict
pub mod Hash
pub mod Scope
pub mod Offers
pub mod Paths
pub mod Share
pub mod Aliases
pub mod Queue
pub mod Ranges
pub mod Message
pub mod Isolation
pub mod Probe
pub mod History
pub mod Contacts
pub mod Targets
pub mod Failover
pub mod Discovery
pub mod Book
