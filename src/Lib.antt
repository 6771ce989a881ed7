-- ===== src/Lib.antt =====
-- A verification of the Python programs of this collection of notes.
--
-- The programs are independent of one another. What they share is in Prelude: tests on numbers,
-- lists, results that may be errors, and integers.
--
-- Avl (자료구조 구현/트리/AVL/avltree.py). `Node` and its methods are functions from trees to trees, since
-- a node hangs under one parent only; an access to `None` is the error of `Result`. Avl/Keys is
-- what is asked of the keys, Avl/Balance and Avl/Put are about heights, Avl/Order about keys,
-- Avl/Size about the number of nodes, and Avl/History about sequences of calls.
--
-- NetLoad (linux/nethogs/main.py). Stats holds the counters, and runs `add` and `snapshot` of many
-- threads load by load and store by store under the lock; Stats/Reads is what one thread reads
-- meanwhile. Throttle is `Throttle`, with times in nanoseconds and exact quotients. Internet holds
-- `download_worker` and `upload_worker`, and Lan `sock_sender`, `sock_receiver`, `run_duplex`,
-- `server_main` and `client_worker`: sockets, clock and stop event are scripts of answers, one
-- entry for each turn, and a script that ends leaves the loop at work. Workers use Stats.add and
-- Throttle.wait. Lan/Duplex is one connection of the LAN mode from end to end: the four threads
-- and the closing of both ends as a step function on a state with the bytes on the way, run by a
-- schedule: Moves and Threads are what one event does, Counted the bytes, Closing the end of the
-- threads, Stopping, Progress and Blocked what is left after the stop. Internet/Rate is about a
-- whole download under its throttle. Fmt is `fmt`; Report is `report` and `main` after argparse,
-- and Report/Accounted the report beside the threads that count.
--
-- Consumer (kafka/pyfka.py). The loop of `consume_messages` over a script of what the client
-- library answers. Python's local `cnt` is an option that starts without a value.
--
-- BlobStore (linux/libpq-fe/pg_con.py). `connect`, `write_blob`, `read_blob` and the script, over
-- a table that is a parameter.
--
-- Chat (linux/socket/client.py). `recv_data` reads at most 30 bytes of what has arrived; the loop
-- that sends and the end of the program are Chat too. Chat/Utf8 is what the program uses of
-- Python's UTF-8, with Chat/Utf8/Characters on one character and Chat/Utf8/RoundTrip on texts.
-- Chat/Pieces is one `recv`, Chat/Spoken a conversation message by message, and Chat/Misread what
-- happens when pieces and messages differ, and Chat/Cut what a short `send` leaves.
--
-- Django, Blog (2022/DB/1006/02_db_workshop_skeleton), Todo (2022/DB/1006/03_db) and Api
-- (2022/DB/1017 and 2022/DB/1018). Django is what these projects use of the framework, as records
-- of operations with the documented behaviour as laws: tables behind model managers, decorators,
-- forms, sessions. Blog/Models are the models with their cascades, Blog/Articles and Blog/Accounts
-- the views, and Blog/Urls the views behind the named URLs, with one request or a sequence of
-- them. Django/Urls is `path`, `include` and the resolver: Django/Urls/Apart decides that no path
-- follows two routes, and Django/Urls/Exact is what then is found. The `urlpatterns` of the
-- projects are in Blog/Urls/Routing, Todo/Routing, Api/Articles/Routing and Api/Music/Routing,
-- with the dispatch of a request by its path; Blog/Urls/Routing/Respond puts the middleware of the
-- settings around it, as Todo/Routing does for its project, and Blog/Urls/Routing/Safe is about
-- the requests by a safe method. Blog/Changes has the database invariant. Todo is an exercise of
-- which only the accounts have views, with its URL configuration; Todo/Errors is about what it
-- answers. Api/Articles and Api/Music are the views and serializers of two JSON interfaces.
-- Api/Articles/Promise is the abstract specification of the first: a relation between the articles
-- and comments before a request, the answer, and those after it.
--
-- Migrations (the migrations of the four projects). Django's executor is a parameter: what an
-- operation does to the columns of a model, under its conditions. A plan is an order of a
-- project's migrations that their dependencies allow. Migrations/Single and Migrations/Plans are
-- the lemmas that the projects share; Blog, Todo, Articles and Music are their migrations beside
-- the columns that the models declare.
--
-- Settings (settings.py, manage.py, wsgi.py and asgi.py of the four projects). The installed
-- applications, the middleware and the password validators as data; the middleware's behaviour is
-- a parameter. Settings/Guarded is what a request meets before a view, and Settings/Installed
-- relates the migrations to the applications; Settings/Entry is about the entry points. The
-- validators are what Blog/Models states of the forms for a password.
--
-- Examples has tests, and every property at a concrete input; Examples/Slots is a table that meets
-- the laws of Django's, Examples/Paths a resolver that does, and Examples/Weblog and
-- Examples/TodoSite are the rest of a backend.
--
-- Bounds: no function runs on fuel. Loops are recursive on their script, of any length; the trees
-- and numbers are unbounded, as Python's are.
--
-- Not modelled: printing, templates, time stamps, padding of numbers, connections' options, the
-- parts of a library behind its calls, what a migration does to rows, the other settings,
-- and the programs in other languages.
pub mod Prelude
pub mod Avl
pub mod NetLoad
pub mod Consumer
pub mod BlobStore
pub mod Django
pub mod Blog
pub mod Api
pub mod Chat
pub mod Todo
pub mod Migrations
pub mod Settings
pub mod Examples
