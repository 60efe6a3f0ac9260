-- ===== src/Lib.antt =====
-- The Steam integration for GOG Galaxy, modelled and verified.
--
-- The program is a plugin that Galaxy runs. `SteamNetworkBackend` (src/backend_steam_network.py)
-- answers Galaxy's requests; `WebSocketClient` (src/steam_network/websocket_client.py) keeps one
-- connection to Steam, and two tasks share it: `_all_auth_calls` answers the login steps that the
-- backend puts into a queue, and `ProtobufClient.run` (src/steam_network/protocol/protobuf_client.py)
-- reads packets. Packets become messages, messages go to the handlers of `ProtocolClient`
-- (src/steam_network/protocol_client.py), and these write the caches that the backend reads.
--
-- The modules, and the code that each is about:
--   Prelude   shared types and lemmas: Boolean tests, lists, integers, dictionaries, texts, and
--             `Result` for calls that may raise.
--   Wire      src/steam_network/protocol/protobuf_client.py, steam_types.py and consts.py: `_send` and
--             `_process_packet` (Packet), `_process_multi` (Multi), the dispatch of messages with the
--             session that it changes (Receive), `SteamId.parse` (SteamId), the members of `EMsg`; the
--             requests that the client sends (Requests); and the session from its log-on to its closing, with
--             the heartbeats (Session, with Beats, Silence and Single).
--   Games     src/steam_network/games_cache.py: the cache of licenses and apps (Defs), its counters
--             through an import (Balance), what the generators yield (Owned); and the import itself,
--             `_process_license_list` and `_process_product_info_response` of protobuf_client.py with
--             `_license_import_handler` and `_app_info_handler` of protocol_client.py (Import); and what the
--             backend shows of it, with src/steam_network/w3_hack.py (Library).
--   UserInfo  src/steam_network/user_info_cache.py: the fields and setters (Defs), the dictionary that
--             Galaxy stores (Stored, with Base64 and Decimal), the flag `changed` (Changes).
--   Auth      the login. Results: `translate_error` of src/steam_network/utils.py. Methods: the enums of
--             src/steam_network/enums.py and src/steam_network/authentication_cache.py. Protocol: the
--             requests of protocol_client.py, and the futures that their responses set (Replies,
--             Answered). Loop: `_all_auth_calls`. Pages: the arguments of the
--             pages and the texts they send. Backend: the handlers of src/backend_steam_network.py.
--             Run: `run` and `_ensure_connected` of websocket_client.py. Servers: the blacklist of
--             src/steam_network/websocket_list.py.
--   Friends   src/steam_network/friends_cache.py on cache_proto.py, and `ProtoUserInfo.update` of
--             steam_types.py (Defs, Updates, Tracking); the list of friends with
--             `_relationship_handler` of protocol_client.py (Messages, Relations); the messages with their
--             state and the translations of their games (Persona, Translations), and what
--             src/steam_network/presence.py makes of them for Galaxy (Presence, Rounds, Status); the
--             list of friends that Galaxy gets (Listing, Listed), and their presence (Context).
--   Imports   src/steam_network/stats_cache.py and times_cache.py (Defs, Completion); the queue of jobs in
--             `ProtobufClient.run` (Jobs); `_stats_handler` with the achievements that the backend shows
--             (Achievements, Earned); the collections, library settings and play times (Collections,
--             Settings); the contexts that the backend prepares for an import (Prepare, AnyOrder).
--   Local     src/client.py: the states of the apps in the registry and the changes between two lists of
--             games (Defs, Registry, Changes), the library folders and the manifests in them (Folders,
--             Library, Manifests).
--   Plugin    src/plugin.py with src/registry_monitor.py and src/backend_interface.py: the tick and the
--             tasks that it starts (Defs, Mirror, Ticks), the sizes of games (Manifest, Size), the
--             commands to the Steam client and the features (Client, Offers).
--   LevelDb   src/leveldb_parser.py: the search for the user's section (Log, Meta), the entries in it
--             (Jsons, Decode, Total), the latest of them (Defs, Kept, Fresh), and the tags of the static
--             (Static) and the dynamic collections (Dynamic, Matches).
--   Caches    src/steam_network/websocket_cache_persistence.py (Servers, Written), src/cache.py with
--             src/achievements_cache.py (Entries, Kept), and src/steam_network/local_machine_cache.py
--             with the start of the protocol client (Machine).
--   Backend   src/backend_steam_network.py: the ticks with the task that tells Galaxy new games (Defs, Told,
--             Sent, Reached), and the games that are kept for the next start, with `dump` and `loads` of
--             src/steam_network/games_cache.py (Restart).
--
-- How the code is read:
--   * An exception is a value, `Result` in the Prelude; a call that changes state and may raise
--     returns the state beside the result.
--   * `await` is a call: a handler runs to its end before the next message is taken, which holds for
--     the receive loop. What two tasks do between each other's awaits is not modelled.
--   * A handler of a login page is a `Dialogue`, which asks the loop and goes on with the answer and
--     the caches it then finds; `Replies` is what Steam answers in one round of the loop. With no
--     reply left the backend's wait of a minute ends in `BackendTimeout`.
--   * Numbers are natural numbers, a 32-bit field is written with its wrap-around, and the counters of
--     the games cache, which may fall below zero, are integers.
--   * A dictionary is a list of pairs in insertion order, a set is a list, a text that is taken apart
--     is the list of its code points (of its UTF-8 bytes in UserInfo).
--   * The tasks of the plugin and of the backend's ticks are phases of its state, and an event is what
--     the event loop can do next, so that every order of ticks, tasks and requests is a list of events.
--   * The seconds of a session are steps, in each of which a task of heartbeats is resumed at most once: an
--     interval of 0, with which the task would send at every turn of the event loop, sends once a second.
--   * What the machine gives (files, the registry, `os.path`, the JSON decoder) is a parameter; a theorem
--     that relies on it says on what.
--   * A bundle within a bundle is received down to a given depth; the loop over its data and the
--     printing of a number have fuel for each byte and each digit, the loop over the library folders has
--     fuel for each entry, and those over the log for each of its characters, which is enough. All else
--     recurs on its input.
--
-- Not modelled: the protobuf messages, which are generated, and their parsing; gzip, RSA, vdf and the
-- regular expressions, which are parameters; the HTTP client, the web pages under
-- src/steam_network/custom_login, logging, and the build and test scripts. Outside the parts above are
-- the limits of the backend's waits, and of src/plugin.py
-- the methods that only pass a request on; of src/leveldb_parser.py the reading of the file.
pub mod Prelude
pub mod Wire
pub mod Games
pub mod UserInfo
pub mod Auth
pub mod Friends
pub mod Imports
pub mod Local
pub mod Plugin
pub mod LevelDb
pub mod Caches
pub mod Backend
