-- ===== src/Lib.antt =====
-- A model of the game rules of the LL2Games RPG server (SERVER/), a C++ program of several
-- processes: LOGIN, WORLD, CHAT and the CHANNEL servers, on which the players meet. The model is
-- about the state that a CHANNEL server keeps and the packets of all servers.
--
-- The parts, with the code that each models:
--   Inventory   SERVER/src/CHANNEL/domain/Inventory.{h,cpp}: the slots of one inventory as a table,
--               with one function for each method; AddItem is its two loops over the positions.
--   InventoryManager
--               SERVER/src/CHANNEL/manager/InventoryManager.cpp: the inventories of a player by type.
--   QuickSlot   SERVER/src/CHANNEL/manager/QuickSlotManager.cpp and SERVER/include/COMMON/Slot_Info.h.
--   Packet      SERVER/src/COMMON/packet/PacketParser.cpp: Parse and TryParse on the receive buffer,
--               ParseLengthPrefixedString, MakeBody and MakePacket, on lists of bytes.
--   Session     SERVER/src/CHANNEL/app/ChannelSession.cpp: the packets out of the bytes that
--               arrive, and the queue of the packets to send.
--   Worker      SERVER/src/COMMON/thread/WorkerThread.cpp and ThreadPool.cpp: a worker and its queue
--               under any interleaving of the threads, and the pool's choice of a worker.
--   Stat        SERVER/src/CHANNEL/stat/CharacterStat.{h,cpp} and GetNeedExp of LevelManager.cpp.
--   Monster     SERVER/src/CHANNEL/domain/Monster.{h,cpp}: HP, death, respawn, attack cooldown.
--   Player      SERVER/src/CHANNEL/domain/Player.cpp: skills with their cooldowns, HP and MP;
--               Player/Items is the use of items from the inventories.
--   Combat      SERVER/src/CHANNEL/service/CombatService.cpp: the level rate and the final damage;
--               Combat/Targets is which monsters an attack hits, Combat/Attack the whole attack.
--   Drop        SERVER/src/CHANNEL/manager/DropManager.cpp: what a killed monster drops.
--   Map         SERVER/src/CHANNEL/map: Map/Instance is who is in a map and when it asks to be
--               destroyed, Map/Drops the items on its ground, Map/Hits what a skill does to its
--               monsters, Map/Contact what its monsters do to the players, Map/Manager the table of
--               the maps.
--               Map/Portal is how a player goes from one map to another and leaves the game.
--   Collider    SERVER/include/COMMON/Collider.h, Math.h and Math.cpp of SERVER/src/CHANNEL/util: when two
--               shapes meet; Collider/Contact is the two tests before a contact damage, Collider/FrontBox
--               the two for a target in front of an attacker.
--   Server      SERVER/src/CHANNEL/app/ChannelServer.cpp: the events of the clients' sockets, the sessions,
--               and with ChannelInitHandler.cpp and PlayerManager.cpp who is logged in.
--               Server/Channel is how full a channel is, as SERVER/src/WORLD/app/ChannelManager.cpp reads it.
--   PlayerService
--               SERVER/src/CHANNEL/db/PlayerService.cpp: the loads of a log-in, and the look-up of a
--               player by a name in SERVER/src/CHANNEL/manager/PlayerManager.cpp.
--   CharacterList
--               SERVER/src/WORLD/app/CharacterService.cpp: an account's characters, with the copy in Redis.
--   Trade       SERVER/src/CHANNEL/service/TradeService.{h,cpp}. Trade/Sessions is the static table
--               of sessions with the heap that its pointers lead to, and Trade/Execute the exchange
--               of the items in the database, one function for each routine.
--               Trade/Handlers is SERVER/src/CHANNEL/packet/HandleTrade.cpp.
--   Database    what TradeService uses of MySQL: the connection pool of
--               SERVER/src/COMMON/db/MySqlConnectionPool.cpp, the C API as a record of operations,
--               and the documented effect of the six SQL statements. Trade/Memory has a concrete
--               instance. Database/Statement is how the other parts run a query.
-- Trade/Sessions calls Trade/Execute when both players are ready; Trade/Execute takes a connection
-- from Database/Pool and sends its statements to the record of Database. Map/Drops puts down what
-- Drop has chosen and gives it to InventoryManager, which works on Inventory, as does Player/Items.
-- Combat/Attack asks Player for the skill and Combat/Targets for the monsters, and gives the hits to
-- Map/Hits, which runs them on the monsters of Monster and gives their experience to Stat and their
-- drops to Map/Drops. Session uses Packet, and Server runs the queues of Session for all clients.
-- PlayerService takes its connections from Database/Pool and fills InventoryManager and QuickSlot;
-- CharacterList runs its query as PlayerService does;
-- Trade/Handlers reads its fields by Packet and calls Trade/Sessions; Map/Portal uses Map/Manager and
-- Map/Instance. The other packet handlers are not modelled: what they send is a parameter of Server.
--
-- Numbers: ids and positions that are only compared are naturals; counts, experience and HP are
-- integers, without the overflow of the C++ types; bytes are naturals below 256, and the two-byte
-- lengths of packets are cut to 16 bits as in the source.
-- Fuel: the loop of AddExp runs on fuel, as much as the experience, since every turn takes 1 or more
-- of it; that this is enough is a part of the theorem on AddExp. The loop of OnBytes runs on fuel,
-- the length of the buffer, since every packet takes 4 bytes or more off it.
-- Random numbers: std::uniform_int_distribution is a parameter of Drop, and the theorems suppose
-- that a number lies between the bounds that it is asked for.
-- Coordinates: in Collider they are integers, on which the float arithmetic of the source is exact while
-- the squares stay below 2^24.
-- The answers of the system calls and of the MySQL C API are arguments of Server,
-- PlayerService and CharacterList.
-- Left out: log output, locks (each call is one step), other floats (movement, projectiles, the arc of
-- an attack; where the rules of other parts depend on them, the answer of a comparison is a parameter),
-- LoadPlayer with its copy in Redis, the loading of the tables in JSON files, the LOGIN and CHAT servers,
-- and the vendored libraries in SERVER/lib.
-- Exceptions are values: the code `threw` of a trade, `thrown` of a packet handler, and none for the
-- slot settings of PlayerService and for the attack; nothing in the source catches them.
-- Whether the session that a player points to still exists is the function `online` of Trade/Handlers.
-- MySQL: START TRANSACTION, COMMIT and ROLLBACK may be refused, which the code does not look at.
-- Redis: whether its commands succeed, and its clock, by which the list of characters expires after
-- 300 seconds, are arguments of CharacterList.
pub mod Prelude
pub mod Inventory
pub mod InventoryManager
pub mod QuickSlot
pub mod Packet
pub mod Session
pub mod Worker
pub mod Stat
pub mod Monster
pub mod Player
pub mod Combat
pub mod Drop
pub mod Map
pub mod Database
pub mod Trade
pub mod Collider
pub mod Server
pub mod PlayerService
pub mod CharacterList
