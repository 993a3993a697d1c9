-- ===== src/Lib.antt =====
-- Makoon creates and manages Kubernetes clusters on Proxmox. This library models the front end in
-- web/src-web/src, a React application over MobX stores that asks the server through axios.
--
-- Parts and files
-- - Js: the methods of arrays, texts and numbers of the language that the program uses. Texts are
--   lists of UTF-16 units. `sort` is the stable sort of the language as an insertion sort.
-- - Model: api/model.ts, one record per interface and one data type per enum. Model/Names has their
--   equality tests.
-- - Api: api/*.ts, one request per function, its reply, and the call that axios is given.
-- - World: the stores of store/*.ts and the state of the wizard, together the state of the page.
--   World/Loaders: store/application-store.ts and store/processing-indicator-store.ts.
-- - Async: asynchronous methods in continuation passing style. A method is a task that reads and
--   writes the page and stops at each request. Async/Call: wrapWithProcessingIndicator and apiCall of
--   utils/api.ts. Async/Run runs a task against a server, an arbitrary function with a state of its
--   own that answers or refuses each request.
-- - Nodes: utils/nodes.ts, the proposal for a further node.
-- - Creator: store/cluster-creator-store.ts, the cluster that the wizard puts together; its
--   asynchronous methods are in Creator/Generate.
-- - Management: store/cluster-management-store.ts, the open cluster. Actions has the methods that
--   load and poll, Apps those on Helm apps and resources, Members those on nodes and logs.
-- - ClustersList: store/clusters-list-store.ts.
-- - Wizard: views/cluster-creator/index.tsx with its navigator and the nodes step. Wizard/Sessions has
--   the events of a session as a step relation.
-- - Hooks: utils/hooks.ts, with Hooks/Polls for the life of a polling component.
-- - Tests: small clusters and pages, with the theorems applied to them.
-- - Wizard/Views has the steps that the wizard renders, Wizard/Dialogs its dialogs for a node, a Helm
--   app and a resource, Wizard/Forms the steps that are left by "Next".
-- - Dialogs: the dialogs and pages of views/clusters-management/components. NodeDialogs has
--   nodes/*.tsx, Releases apps/*.tsx and Workloads workloads/*.tsx.
-- - Routes: Router.tsx, views/login/index.tsx and views/clusters-management/index.tsx, the pages that
--   move the browser.
-- - Displays: the signs of statuses, the panel for errors, and in Displays/Sizes utils/size.ts.
-- - Async/Pool: several methods at once, each up to its next request, with answers in any order.
--   Async/Pool/Keeps has predicates that each write keeps, and the polls of all pages.
-- - Patterns: utils/patterns.ts, over the regular expressions of Js/Regex.
-- - Forms: the schemas of all forms (Forms/Schemas), the values of a form under their names
--   (Forms/Values), what a schema accepts (Forms/Nodes, Clusters, Releases; Forms/Proposals of the
--   nodes that are proposed), and the inputs of each
--   form with what can be typed into them (Forms/Inputs).
-- - Loads: the choices that the steps, the dialogs and components/MainMenu.tsx load, each list the state
--   of the component that is mounted; Loads/Orders: requests answered in any order. Pages: the page of
--   logs, the list of clusters and the tables, with the cells of each row in Pages/Rows.
--   Wizard/Initials, Dialogs/Initials and Routes/Recall: the values that forms are opened with.
--   Wizard/Sections: the tables of the wizard. Management/Tables: the totals and tables of the open
--   cluster.
-- - Routes/Paths: the routes of Router.tsx under the guard. Routes/Destroying: the events of the
--   confirmation that destroys a cluster, as a step relation. Pages/NodesPage: which dialogs the page of
--   nodes shows. Pages/Mounting: what the pages ask for when they are first shown.
--   Wizard/Tables: the sections of nodes, and the footers of the dialogs of the wizard.
-- - Wizard/Building: the wizard as a whole, with what its forms show and what it has asked the server
--   for, from the first step to the request. Creator/Adding: the button for a further node, pressed any
--   number of times, with the lists of Creator/Distinct. Async/Pool/Keeps/Methods, About, Stays and
--   OneCluster: the methods of the open cluster, all of them at once.
-- - Pages/Elements: the pages of apps and of workloads with the dialogs around their forms.
--   Routes/Menus: components/MainMenu.tsx, components/Header.tsx and the inner menu of a cluster.
--
-- How they interact
-- A view calls a method of a store. The method asks the server through apiCall, which turns an
-- indicator on and off and writes a failure to the application's store, and then changes its own
-- store. So an asynchronous method is a function on the whole page, and a theorem about one says what
-- page and what server state it leaves, for each answer of the server, whatever follows it.
--
-- Bounds and fuel
-- Numbers of the program that the model counts with are natural numbers or integers.
-- `Number(s) + step` is computed for numerals below 2 ^ 52, where it is exact; every other sum is the
-- parameter `float_text`. The digits of a number are found with the number itself as fuel,
-- which is above their count. All other recursion is structural.
--
-- Not modelled
-- Layout and styles, the libraries (React, MobX, axios, PrimeReact, Formik, Yup), log output and the
-- server, which is written in Rust. What the program uses of the form library is a parameter, and of
-- Yup too, with the hypothesis `IsDocumented` of Forms, which Tests/Checked shows to hold of a checker.
-- A theorem on one method lets it run alone; those of Async/Pool and Loads/Late have several at once.
-- Values that the server sends are taken to have the fields that api/model.ts declares.
pub mod Prelude
pub mod Js
pub mod Model
pub mod Nodes
pub mod Api
pub mod World
pub mod Async
pub mod Management
pub mod ClustersList
pub mod Creator
pub mod Wizard
pub mod Hooks
pub mod Dialogs
pub mod Routes
pub mod Displays
pub mod Patterns
pub mod Forms
pub mod Loads
pub mod Pages
pub mod Tests
